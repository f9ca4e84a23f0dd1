-- ===== src/Serve/Progress.antt =====
-- A serve through a sequence of operations, and the rank of its status. `ctx.db.patch` belongs to
-- the database and is a parameter, with its documented behaviour on the status: a status that the
-- patch has is written, and otherwise it stays.
use tahuna_oss.Common.{
  ℕ, suc, ◌+◌, ◌*◌, ◌≤◌, ◌<◌, ◌≡◌, refl, ap, ◌∙◌, ◌⊎◌, ◌||◌, inl, inr, Bool, true, false, Option,
  none, some, List, [], ◌∷◌, arith, change_required, if◌then◌else◌, Bool-cases,
}
use tahuna_oss.Serve.Types.{
  ServeStatus, queued, provisioning, starting, serving, stopping, stopped, failed, other,
  is_terminal_serve_status, ServeState, ServePatch, serve_status_eq,
}
use tahuna_oss.Serve.Plan.{
  plan_serve_stop, is_stopping, plan_serve_compute_session_stop, plan_serve_machine_provisioned,
  plan_serve_failure, plan_serve_stopped_after_termination, plan_serve_stop_termination_failed,
  plan_serve_compute_session_billing_failure, plan_serve_compute_session_termination_failed,
  plan_serve_termination_retry, plan_mark_provisioning,
}
use tahuna_oss.Serve.Command.{
  ServeCommand, stop, stop_session, machine_provisioned, fail, stopped_after_termination,
  stop_termination_failed, billing_failure, session_termination_failed, retry_termination, ingest,
  mark_provisioning, serve_command, is_mark,
}
use tahuna_oss.Serve.Transitions.{
  ◌⟶◌, stay, provision, written_status, serve_status_eq_refl, plan_serve_runtime_status_ingestion-⟶,
}

-- How far a serve has come.
abbrev pub rank : ServeStatus → ℕ
rank queued = 0
rank provisioning = 1
rank starting = 2
rank serving = 3
rank stopping = 4
rank stopped = 5
rank failed = 5
rank (other t) = 0

-- The second status is the first one, or further on.
abbrev Moves : ServeStatus → ServeStatus → Type 0
Moves s t = (t ≡ s) ⊎ (rank s < rank t)

⟶-Moves : {s t : ServeStatus} → s ⟶ t → Moves s t
⟶-Moves stay = inl refl
⟶-Moves provision = inr (omega arith)
⟶-Moves _ = inr (omega arith)

-- The status moves, or a mark sets it to `provisioning` before the serve is stopping.
abbrev Shifts : ServeCommand → ServeStatus → ServeStatus → Type 0
Shifts c s t = Moves s t ⊎ ((is_mark c ≡ true) × (t ≡ provisioning) × (rank s < 4))

serve_command-Shifts :
    (serve : ServeState) (c : ServeCommand)
    → Shifts c serve.status (written_status (serve_command serve c).patch serve.status)
unfolding serve_command
serve_command-Shifts serve (stop f) = unfold plan_serve_stop in ground arith
serve_command-Shifts serve (stop_session t f) =
    unfold plan_serve_compute_session_stop in ground arith
serve_command-Shifts serve (machine_provisioned m d t) =
    unfold plan_serve_machine_provisioned in ground arith
serve_command-Shifts serve (fail e p) = unfold plan_serve_failure in ground arith
serve_command-Shifts serve (stopped_after_termination f) =
    unfold plan_serve_stopped_after_termination in ground arith
serve_command-Shifts serve (stop_termination_failed e) =
    unfold plan_serve_stop_termination_failed in ground arith
serve_command-Shifts serve (billing_failure t) =
    unfold plan_serve_compute_session_billing_failure in ground arith
serve_command-Shifts serve (session_termination_failed t e) =
    unfold plan_serve_compute_session_termination_failed in ground arith
serve_command-Shifts serve (retry_termination r) =
    unfold plan_serve_termination_retry in ground arith
serve_command-Shifts serve (ingest a) =
    inl (⟶-Moves (plan_serve_runtime_status_ingestion-⟶ serve a).0)
serve_command-Shifts serve (mark_provisioning p) = unfold plan_mark_provisioning in ground arith

-- The marks among the operations.
abbrev pub marks : List ServeCommand → ℕ
marks [] = 0
marks (c ∷ cs) = if is_mark c then suc (marks cs) else marks cs

rank_bound : (s : ServeStatus) → rank s ≤ 5
rank_bound queued = omega arith
rank_bound _ = omega arith

late_status : (s : ServeStatus) → 4 ≤ rank s → (is_stopping s || is_terminal_serve_status s) ≡ true
late_status s h = ground arith

-- What a stop and the report behind it write.
IsStopped : ServeStatus → Type 0
IsStopped t = (t ≡ stopping) ⊎ (t ≡ stopped)

stop_written :
    (s : ServeState) (force : Bool)
    → is_terminal_serve_status s.status ≡ false
    → IsStopped (written_status (serve_command s (stop force)).patch s.status)
unfolding serve_command plan_serve_stop IsStopped
stop_written s force h = ground arith

after_stop :
    (s : ServeState) (force : Bool)
    → IsStopped s.status
    → written_status (serve_command s (stopped_after_termination force)).patch s.status ≡ stopped
unfolding serve_command plan_serve_stopped_after_termination IsStopped
after_stop s force h = ground arith

pub record ServeStore : Type 0 where
  pub patch : ServePatch → ServeState → ServeState
  pub status_law :
      (p : ServePatch) (s : ServeState) → (patch p s).status ≡ change_required p.status s.status

module _ (store : ServeStore) where
  open store use {patch, status_law}

  -- The patch of a plan, where it has one.
  unfoldable pub apply_serve_plan : Option ServePatch → ServeState → ServeState
  apply_serve_plan none s = s
  apply_serve_plan (some p) s = patch p s

  unfoldable pub step : ServeState → ServeCommand → ServeState
  step s c = apply_serve_plan (serve_command s c).patch s

  unfoldable pub run_trace : ServeState → List ServeCommand → ServeState
  run_trace s [] = s
  run_trace s (c ∷ cs) = run_trace (step s c) cs

  -- How often the status changes on the way.
  unfoldable pub status_changes : ServeState → List ServeCommand → ℕ
  status_changes s [] = 0
  status_changes s (c ∷ cs) =
      let rest = status_changes (step s c) cs in
      if serve_status_eq (step s c).status s.status then rest else suc rest

  apply_serve_plan-status :
      (p : Option ServePatch) (s : ServeState)
      → (apply_serve_plan p s).status ≡ written_status p s.status
  unfolding apply_serve_plan
  apply_serve_plan-status none s = refl
  apply_serve_plan-status (some p) s = status_law p s

  step-Shifts : (s : ServeState) (c : ServeCommand) → Shifts c s.status (step s c).status
  unfolding step
  step-Shifts s c =
      rw (apply_serve_plan-status (serve_command s c).patch s) (serve_command-Shifts s c)

  step-rank :
      (s : ServeState) (c : ServeCommand) (cs : List ServeCommand)
      → rank s.status + 2 * marks cs ≤ rank (step s c).status + 2 * marks (c ∷ cs)
  step-rank s c cs = elim (step-Shifts s c) [
    | inl (inl e) ↦ rw e (ground arith)
    | inl (inr h) ↦ ground arith
    | inr (m, e, h) ↦ rw (e, m) (omega arith)
  ]

  step_changed :
      (s : ServeState) (c : ServeCommand) (cs : List ServeCommand)
      → serve_status_eq (step s c).status s.status ≡ false
      → rank s.status + 3 * marks cs < rank (step s c).status + 3 * marks (c ∷ cs)
  step_changed s c cs h = elim (step-Shifts s c) [
    | inl (inl e) ↦ absurd (cc (h, e, serve_status_eq_refl s.status))
    | inl (inr m) ↦ ground arith
    | inr (m, e, b) ↦ rw (e, m) (omega arith)
  ]

  step_late : (s : ServeState) (c : ServeCommand) → 4 ≤ rank s.status → 4 ≤ rank (step s c).status
  step_late s c h = elim (step-Shifts s c) [
    | inl (inl e) ↦ rw e h
    | inl (inr m) ↦ omega arith
    | inr (m, e, b) ↦ absurd (omega arith)
  ]

  run_trace_late :
      (s : ServeState) (cs : List ServeCommand)
      → 4 ≤ rank s.status
      → 4 ≤ rank (run_trace s cs).status
  unfolding run_trace
  run_trace_late s [] h = h
  run_trace_late s (c ∷ cs) h = run_trace_late (step s c) cs (step_late s c h)

  run_trace-rank :
      (s : ServeState) (cs : List ServeCommand)
      → rank s.status ≤ rank (run_trace s cs).status + 2 * marks cs
  unfolding run_trace
  run_trace-rank s [] = omega arith
  run_trace-rank s (c ∷ cs) = omega (arith, step-rank s c cs, run_trace-rank (step s c) cs)

  marks_more : (c : ServeCommand) (cs : List ServeCommand) → marks cs ≤ marks (c ∷ cs)
  marks_more c cs = ground arith

  changes_bound :
      (s : ServeState) (cs : List ServeCommand)
      → status_changes s cs + rank s.status ≤ rank (run_trace s cs).status + 3 * marks cs
  unfolding run_trace status_changes
  changes_bound s [] = omega arith
  changes_bound s (c ∷ cs) = elim (Bool-cases (serve_status_eq (step s c).status s.status)) [
    | inl e ↦ rw e (omega (arith, step-rank s c cs, marks_more c cs, changes_bound (step s c) cs))
    | inr e ↦ rw e (omega (arith, step_changed s c cs e, changes_bound (step s c) cs))
  ]

  -- Over any sequence of operations the status of a serve moves backward only by marks of its
  -- provisioning, by two ranks for each at most, and it changes at most five times, less by how far
  -- the serve had come, and three times more for each mark.
  pub status_changes_bound :
      (s : ServeState) (cs : List ServeCommand)
      → (rank s.status ≤ rank (run_trace s cs).status + 2 * marks cs)
        × (status_changes s cs + rank s.status ≤ 5 + 3 * marks cs)
  status_changes_bound s cs =
      (run_trace-rank s cs, omega (arith, changes_bound s cs, rank_bound (run_trace s cs).status))

  -- A serve that is stopping is never started again: whatever operations follow, it is stopping, or
  -- it has stopped or failed.
  pub run_trace-stopping :
      (s : ServeState) (cs : List ServeCommand)
      → s.status ≡ stopping
      → (is_stopping (run_trace s cs).status || is_terminal_serve_status (run_trace s cs).status)
        ≡ true
  run_trace-stopping s cs h =
      late_status (run_trace s cs).status (run_trace_late s cs (omega (arith, ap rank h)))

  step-status :
      (s : ServeState) (c : ServeCommand)
      → (step s c).status ≡ written_status (serve_command s c).patch s.status
  unfolding step
  step-status s c = apply_serve_plan-status (serve_command s c).patch s

  -- A stop, and then the report that the termination succeeded, bring every serve that has not
  -- ended to `stopped`.
  pub stop_completes :
      (s : ServeState) (force force' : Bool)
      → is_terminal_serve_status s.status ≡ false
      → (run_trace s (stop force ∷ stopped_after_termination force' ∷ [])).status ≡ stopped
  unfolding run_trace
  stop_completes s force force' h =
      step-status (step s (stop force)) (stopped_after_termination force')
      ∙ after_stop (step s (stop force)) force'
          (rw (step-status s (stop force)) (stop_written s force h))

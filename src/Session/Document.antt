-- ===== src/Session/Document.antt =====
-- The session document through a sequence of operations. `ctx.db.patch` belongs to the database and
-- is a parameter, with its documented behaviour on the status and the active run: a field that the
-- patch has is written, one that it has as `undefined` is removed, and any other stays.
use tahuna_oss.Common.{
  ℕ, ◌≡◌, refl, ◌∙◌, Bool, true, false, ◌||◌, not, Option, none, some, List, [], ◌∷◌, arith, All,
  change, change_required,
}
use tahuna_oss.Js.Text.{Text, truthy, trim, is_empty}
use tahuna_oss.Session.Types.{
  SessionStatus, running, terminating, is_terminal_session_status, SessionState, SessionPatch,
}
use tahuna_oss.Session.Plan.{
  is_terminating, plan_compute_session_failure, plan_compute_session_machine_provisioned,
  plan_compute_session_heartbeat, plan_compute_session_serving, plan_compute_session_idle,
  plan_compute_session_run_assigned, plan_compute_session_stop, plan_compute_session_terminated,
}
use tahuna_oss.Session.Command.{
  SessionCommand, machine_provisioned, heartbeat, serving, idle, assign, stop, terminated, fail,
  session_command,
}

-- The statuses in which a session may hold a run.
abbrev pub may_hold : SessionStatus → Bool
may_hold running = true
may_hold terminating = true
may_hold _ = false

-- A session holds a run only while it is running or terminating.
abbrev pub HoldsWell : SessionState → Type 0
HoldsWell s = (not (truthy s.active_run_id) || may_hold s.status) ≡ true

abbrev pub is_idle_command : SessionCommand → Bool
is_idle_command (idle now_ms) = true
is_idle_command _ = false

-- Terminating, or ended.
abbrev pub is_closing : SessionStatus → Bool
is_closing status = is_terminating status || is_terminal_session_status status

-- What an operation does to the status and the active run of a session, given as the values after it.
pub record StepFacts (s : SessionState) (c : SessionCommand) (status : SessionStatus)
    (run : Option Text) : Type 0 where
  pub holds_well : HoldsWell s → (not (truthy run) || may_hold status) ≡ true
  pub stays_closing :
      is_idle_command c ≡ false → is_closing s.status ≡ true → is_closing status ≡ true
  pub idles :
      is_idle_command c ≡ true
      → is_terminal_session_status s.status ≡ false
      → (status ≡ SessionStatus.idle) × (run ≡ none)

abbrev status_after : Option SessionPatch → SessionState → SessionStatus
status_after none s = s.status
status_after (some p) s = change_required p.status s.status

abbrev run_after : Option SessionPatch → SessionState → Option Text
run_after none s = s.active_run_id
run_after (some p) s = change p.active_run_id s.active_run_id

abbrev PatchFacts : SessionState → SessionCommand → Option SessionPatch → Type 0
PatchFacts s c p = StepFacts s c (status_after p s) (run_after p s)

session_command-facts :
    (s : SessionState) (c : SessionCommand) → PatchFacts s c (session_command s c).patch
unfolding session_command
session_command-facts s (machine_provisioned a) =
    unfold plan_compute_session_machine_provisioned in ground arith
session_command-facts s (heartbeat n) = unfold plan_compute_session_heartbeat in ground arith
session_command-facts s serving = unfold plan_compute_session_serving in ground arith
session_command-facts s (idle n) = unfold plan_compute_session_idle in ground arith
session_command-facts s (assign r) = unfold plan_compute_session_run_assigned in ground arith
session_command-facts s (stop f r n) = unfold plan_compute_session_stop in ground arith
session_command-facts s (terminated n) = unfold plan_compute_session_terminated in ground arith
session_command-facts s (fail e n) = unfold plan_compute_session_failure in ground arith

assign_to_idle :
    (s : SessionState) (run_id : Text)
    → s.status ≡ SessionStatus.idle
    → s.active_run_id ≡ none
    → is_empty (trim run_id) ≡ false
    → run_after (session_command s (assign run_id)).patch s ≡ some (trim run_id)
unfolding session_command plan_compute_session_run_assigned
assign_to_idle s run_id h k e = ground arith

pub record SessionStore : Type 0 where
  pub patch : SessionPatch → SessionState → SessionState
  pub status_law :
      (p : SessionPatch) (s : SessionState) → (patch p s).status ≡ change_required p.status s.status
  pub active_run_law :
      (p : SessionPatch) (s : SessionState)
      → (patch p s).active_run_id ≡ change p.active_run_id s.active_run_id

module _ (store : SessionStore) where
  open store use {patch, status_law, active_run_law}

  -- The patch of a plan, where it has one.
  unfoldable pub apply_session_plan : Option SessionPatch → SessionState → SessionState
  apply_session_plan none s = s
  apply_session_plan (some p) s = patch p s

  unfoldable pub step : SessionState → SessionCommand → SessionState
  step s c = apply_session_plan (session_command s c).patch s

  unfoldable pub run_trace : SessionState → List SessionCommand → SessionState
  run_trace s [] = s
  run_trace s (c ∷ cs) = run_trace (step s c) cs

  apply_session_plan-facts :
      (s : SessionState) (c : SessionCommand) (p : Option SessionPatch)
      → PatchFacts s c p
      → StepFacts s c (apply_session_plan p s).status (apply_session_plan p s).active_run_id
  unfolding apply_session_plan
  apply_session_plan-facts s c none h = h
  apply_session_plan-facts s c (some p) h = rw (status_law p s, active_run_law p s) h

  pub step-facts :
      (s : SessionState) (c : SessionCommand)
      → StepFacts s c (step s c).status (step s c).active_run_id
  unfolding step
  step-facts s c =
      apply_session_plan-facts s c (session_command s c).patch (session_command-facts s c)

  -- Whatever operations follow, a session holds a run only while it is running or terminating; so an
  -- idle session and one that has ended hold none.
  pub run_trace-HoldsWell :
      (s : SessionState) (cs : List SessionCommand) → HoldsWell s → HoldsWell (run_trace s cs)
  unfolding run_trace
  run_trace-HoldsWell s [] h = h
  run_trace-HoldsWell s (c ∷ cs) h =
      run_trace-HoldsWell (step s c) cs ((step-facts s c).holds_well h)

  -- A session that is terminating stays so until it ends, whatever operations follow other than a
  -- report that it is idle.
  pub run_trace_closing :
      (s : SessionState) (cs : List SessionCommand)
      → All (λ c. is_idle_command c ≡ false) cs
      → is_closing s.status ≡ true
      → is_closing (run_trace s cs).status ≡ true
  unfolding run_trace
  run_trace_closing s [] v h = h
  run_trace_closing s (c ∷ cs) v h =
      run_trace_closing (step s c) cs v.1 ((step-facts s c).stays_closing v.0 h)

  step-run :
      (s : SessionState) (c : SessionCommand)
      → (step s c).active_run_id ≡ run_after (session_command s c).patch s
  unfolding step
  step-run s c = apply_run (session_command s c).patch s
    where
      apply_run :
          (p : Option SessionPatch) (s : SessionState)
          → (apply_session_plan p s).active_run_id ≡ run_after p s
      apply_run none s = unfold apply_session_plan in refl
      apply_run (some p) s = unfold apply_session_plan in active_run_law p s

  -- A report that a session is idle makes every session idle that has not ended, also one that is
  -- terminating, and takes its run away; the session can then be given a new run.
  pub idle_reopens :
      (s : SessionState) (now_ms : ℕ) (run_id : Text)
      → is_terminal_session_status s.status ≡ false
      → is_empty (trim run_id) ≡ false
      → let t = step s (idle now_ms) in
        (t.status ≡ SessionStatus.idle)
        × ((step t (assign run_id)).active_run_id ≡ some (trim run_id))
  idle_reopens s now_ms run_id h k =
      let (now_idle, no_run) = (step-facts s (idle now_ms)).idles refl h in
      (
        now_idle,
        step-run (step s (idle now_ms)) (assign run_id)
            ∙ assign_to_idle (step s (idle now_ms)) run_id now_idle no_run k,
      )

-- ===== src/Run/Document.antt =====
-- The run document through a sequence of operations. `ctx.db.patch` belongs to the database and is
-- a parameter, with its documented behaviour on the fields of the run's state: a field that the
-- patch has is written, one that it has as `undefined` is removed, and any other stays. A deletion
-- leaves the document as its plan does: the deletion of the data that may follow is not a step, so a
-- sequence may go on after it.
use tahuna_oss.Common.{
  ◌≡◌, refl, ap, ◌∙◌, Bool-cases, inl, inr, Bool, true, false, ◌||◌, Option, none, some, List, [],
  ◌∷◌, arith, All, change, change_required, is_some, not,
}
use tahuna_oss.Js.Number.{Number}
use tahuna_oss.Run.Types.{
  RunStatus, provisioning, running, cancelling, completed, failed, cancelled,
  is_terminal_run_status, RunState, RunPatch, RunPlan, is_set,
}
use tahuna_oss.Run.Plan.{
  is_provisioning, plan_run_cancellation, plan_machine_provisioned, plan_provisioning_started,
  plan_machine_running, plan_run_failure, plan_cancellation_termination_completed,
  plan_cancellation_termination_failed, plan_termination_retry, plan_run_deletion,
}
use tahuna_oss.Run.Ingestion.{is_running, plan_runtime_status_ingestion}
use tahuna_oss.Run.Command.{
  RunCommand, cancel, machine_provisioned, provisioning_started, machine_running, fail,
  termination_completed, termination_failed, retry_termination, ingest, delete, rename, run_command,
}

pub record RunStore : Type 0 where
  pub patch : RunPatch → RunState → RunState
  pub status_law :
      (p : RunPatch) (s : RunState) → (patch p s).status ≡ change_required p.status s.status
  pub cancellation_law :
      (p : RunPatch) (s : RunState)
      → (patch p s).cancellation_requested
        ≡ change p.cancellation_requested s.cancellation_requested
  pub started_law :
      (p : RunPatch) (s : RunState)
      → (patch p s).compute_started_at ≡ change p.compute_started_at s.compute_started_at

-- The statuses that the runtime endpoint's validator accepts.
abbrev pub is_reported_status : RunStatus → Bool
is_reported_status provisioning = true
is_reported_status running = true
is_reported_status completed = true
is_reported_status failed = true
is_reported_status cancelled = true
is_reported_status _ = false

abbrev pub IsValidCommand : RunCommand → Type 0
IsValidCommand (ingest a) = is_reported_status a.status ≡ true
IsValidCommand _ = Unit

abbrev pub is_cancelling : RunStatus → Bool
is_cancelling cancelling = true
is_cancelling _ = false

-- A run that is running has a start, and one that is cancelling was asked to.
pub record RunInv (s : RunState) : Type 0 where
  pub running_started : (not (is_running s.status) || is_some s.compute_started_at) ≡ true
  pub cancelling_requested :
      (not (is_cancelling s.status) || is_set s.cancellation_requested) ≡ true

-- Provisioning or running.
abbrev pub is_pending : RunStatus → Bool
is_pending status = is_provisioning status || is_running status

-- What an operation does to the status, the cancellation flag and the start of a run, given as the
-- values after it.
pub record StepFacts (s : RunState) (status : RunStatus) (requested : Option Bool)
    (start : Option Number) : Type 0 where
  pub running_started : RunInv s → (not (is_running status) || is_some start) ≡ true
  pub cancelling_requested : RunInv s → (not (is_cancelling status) || is_set requested) ≡ true
  pub keeps_request : is_set s.cancellation_requested ≡ true → is_set requested ≡ true
  pub keeps_start : is_some s.compute_started_at ≡ true → start ≡ s.compute_started_at
  pub stays_down :
      is_set s.cancellation_requested ≡ true → is_pending status ≡ true → status ≡ s.status
  pub stays_ended : is_terminal_run_status s.status ≡ true → is_terminal_run_status status ≡ true

abbrev status_after : Option RunPatch → RunState → RunStatus
status_after none s = s.status
status_after (some p) s = change_required p.status s.status

abbrev requested_after : Option RunPatch → RunState → Option Bool
requested_after none s = s.cancellation_requested
requested_after (some p) s = change p.cancellation_requested s.cancellation_requested

abbrev start_after : Option RunPatch → RunState → Option Number
start_after none s = s.compute_started_at
start_after (some p) s = change p.compute_started_at s.compute_started_at

abbrev PlanFacts : RunState → RunPlan → Type 0
PlanFacts s plan =
    StepFacts s (status_after plan.patch s) (requested_after plan.patch s)
      (start_after plan.patch s)

run_command-facts :
    (s : RunState) (c : RunCommand) → IsValidCommand c → PlanFacts s (run_command s c)
unfolding run_command
run_command-facts s (cancel force grace_ms) v = unfold plan_run_cancellation in ground arith
run_command-facts s (machine_provisioned m t d u) v =
    unfold plan_machine_provisioned in ground arith
run_command-facts s (provisioning_started p) v = unfold plan_provisioning_started in ground arith
run_command-facts s (machine_running p n) v = unfold plan_machine_running in ground arith
run_command-facts s (fail e p) v = unfold plan_run_failure in ground arith
run_command-facts s (termination_completed f) v =
    unfold plan_cancellation_termination_completed in ground arith
run_command-facts s (termination_failed e) v =
    unfold plan_cancellation_termination_failed in ground arith
run_command-facts s (retry_termination r) v = unfold plan_termination_retry in ground arith
run_command-facts s (ingest a) v = unfold plan_runtime_status_ingestion in ground arith
run_command-facts s (delete c f) v = unfold plan_run_deletion in ground arith
run_command-facts s (rename o n) v = ground arith

module _ (store : RunStore) where
  open store use {patch, status_law, cancellation_law, started_law}

  -- `applyRunLifecyclePlan` on the run document, without a settlement of usage.
  unfoldable pub apply_run_plan : Option RunPatch → RunState → RunState
  apply_run_plan none s = s
  apply_run_plan (some p) s = patch p s

  unfoldable pub step : RunState → RunCommand → RunState
  step s c = apply_run_plan (run_command s c).patch s

  unfoldable pub run_trace : RunState → List RunCommand → RunState
  run_trace s [] = s
  run_trace s (c ∷ cs) = run_trace (step s c) cs

  abbrev pub DocumentFacts : RunState → RunState → Type 0
  DocumentFacts s t = StepFacts s t.status t.cancellation_requested t.compute_started_at

  apply_run_plan-facts :
      (s : RunState) (p : Option RunPatch)
      → StepFacts s (status_after p s) (requested_after p s) (start_after p s)
      → DocumentFacts s (apply_run_plan p s)
  unfolding apply_run_plan
  apply_run_plan-facts s none h = h
  apply_run_plan-facts s (some p) h = rw (status_law p s, cancellation_law p s, started_law p s) h

  pub step-facts : (s : RunState) (c : RunCommand) → IsValidCommand c → DocumentFacts s (step s c)
  unfolding step
  step-facts s c v = apply_run_plan-facts s (run_command s c).patch (run_command-facts s c v)

  step-RunInv : (s : RunState) (c : RunCommand) → IsValidCommand c → RunInv s → RunInv (step s c)
  step-RunInv s c v i = record {
    running_started = (step-facts s c v).running_started i;
    cancelling_requested = (step-facts s c v).cancelling_requested i;
  }

  -- Over any sequence of operations in which the runtime reports only statuses that its endpoint
  -- accepts, the invariant is kept: a running run has a start, and a cancelling run was asked to
  -- cancel.
  pub run_trace-RunInv :
      (s : RunState) (cs : List RunCommand)
      → All IsValidCommand cs
      → RunInv s
      → RunInv (run_trace s cs)
  unfolding run_trace
  run_trace-RunInv s [] v i = i
  run_trace-RunInv s (c ∷ cs) v i = run_trace-RunInv (step s c) cs v.1 (step-RunInv s c v.0 i)

  step_not_pending :
      (s : RunState) (c : RunCommand)
      → IsValidCommand c
      → is_set s.cancellation_requested ≡ true
      → is_pending s.status ≡ false
      → is_pending (step s c).status ≡ false
  step_not_pending s c v h k = elim (Bool-cases (is_pending (step s c).status)) [
    | inl e ↦ let same = (step-facts s c v).stays_down h e in cc (k, ap is_pending same)
    | inr e ↦ e
  ]

  -- A requested cancellation is never withdrawn, and from then on a run that is not provisioning or
  -- running never is again, whatever operations follow, where the runtime reports only statuses
  -- that its endpoint accepts.
  pub run_trace_cancelled :
      (s : RunState) (cs : List RunCommand)
      → All IsValidCommand cs
      → is_set s.cancellation_requested ≡ true
      → is_pending s.status ≡ false
      → (is_set (run_trace s cs).cancellation_requested ≡ true)
        × (is_pending (run_trace s cs).status ≡ false)
  unfolding run_trace
  run_trace_cancelled s [] v h k = (h, k)
  run_trace_cancelled s (c ∷ cs) v h k =
      run_trace_cancelled (step s c) cs v.1 ((step-facts s c v.0).keeps_request h)
        (step_not_pending s c v.0 h k)

  -- A run that has ended stays ended, whatever operations follow, where the runtime reports only
  -- statuses that its endpoint accepts.
  pub run_trace_ended :
      (s : RunState) (cs : List RunCommand)
      → All IsValidCommand cs
      → is_terminal_run_status s.status ≡ true
      → is_terminal_run_status (run_trace s cs).status ≡ true
  unfolding run_trace
  run_trace_ended s [] v h = h
  run_trace_ended s (c ∷ cs) v h =
      run_trace_ended (step s c) cs v.1 ((step-facts s c v.0).stays_ended h)

  -- The recorded start of a run, once there is one, is never overwritten, whatever operations follow,
  -- where the runtime reports only statuses that its endpoint accepts.
  pub run_trace_start :
      (s : RunState) (cs : List RunCommand)
      → All IsValidCommand cs
      → is_some s.compute_started_at ≡ true
      → (run_trace s cs).compute_started_at ≡ s.compute_started_at
  unfolding run_trace
  run_trace_start s [] v h = refl
  run_trace_start s (c ∷ cs) v h =
      let same = (step-facts s c v.0).keeps_start h in
      run_trace_start (step s c) cs v.1 (rw same h) ∙ same

-- ===== src/Run/Terminal.antt =====
-- What the plans do to a run that has ended, and what a plan that ends a run does besides.
use tahuna_oss.Common.{
  ℕ, suc, not, ◌≡◌, refl, ◌⊎◌, Bool, true, false, ◌&&◌, Option, none, some, List, [], ◌∷◌, arith,
  put, get_or, All, if◌then◌else◌,
}
use tahuna_oss.Js.Text.{Text, truthy, is_empty}
use tahuna_oss.Jobs.Types.{RunLifecycleJob}
use tahuna_oss.Jobs.Create.{create_terminate_machine_job}
use tahuna_oss.Run.Types.{
  is_terminal_run_status, RunState, RunPatch, RunPlan, no_plan, is_set, normalize_machine_id,
}
use tahuna_oss.Run.Plan.{
  cancelled_plan, plan_run_cancellation, plan_machine_provisioned, plan_provisioning_started,
  plan_machine_running, plan_run_failure, plan_cancellation_termination_completed,
  plan_cancellation_termination_failed, plan_termination_retry, revoked,
  plan_forced_machine_termination, plan_run_deletion, plan_run_rename_event, StartupTimeout,
  startup_timeout_jobs,
}
use tahuna_oss.Run.Ingestion.{is_false, plan_runtime_status_ingestion}
use tahuna_oss.Run.Command.{
  RunCommand, cancel, machine_provisioned, provisioning_started, machine_running, fail,
  termination_completed, termination_failed, retry_termination, ingest, delete, rename, run_command,
  is_bootstrap_report, is_rename, settles_usage, ends_run,
}

abbrev pub has_machine : RunState → Bool
has_machine run = not (is_empty (normalize_machine_id run.provider_machine_id))

-- The immediate and forced termination of the run's machine.
abbrev pub forced_termination : RunState → RunLifecycleJob
forced_termination run = RunLifecycleJob.terminate_machine (
    create_terminate_machine_job run.run_id none (normalize_machine_id run.provider_machine_id) true
      none)

-- What an operation does to a run that has ended.
abbrev pub plan_after_end : RunState → RunCommand → RunPlan
plan_after_end run (provisioning_started p) =
    if is_set run.cancellation_requested then cancelled_plan else no_plan
plan_after_end run (machine_running p n) =
    if is_set run.cancellation_requested then cancelled_plan else no_plan
plan_after_end run (delete cancel_active force) = record no_plan {
  jobs =
      if has_machine run && not (truthy run.compute_session_id)
      then forced_termination run ∷ []
      else [];
  storage_operations = record { keys = get_or run.artifact_keys [] } ∷ [];
}
plan_after_end run (rename old_name new_name) = record no_plan {
  events = plan_run_rename_event run.status old_name new_name ∷ [];
}
plan_after_end run _ = no_plan

-- On a run that has ended, every operation of RunCommand does nothing at all, but for three: where a
-- cancellation had been requested, a late report of the bootstrap overwrites the status by
-- `cancelled`; a deletion frees the stored artifacts, and asks for the forced termination of the
-- run's machine where it has one that no compute session owns; and a renaming leaves its event.
pub run_command_of_terminal :
    (run : RunState) (c : RunCommand)
    → is_terminal_run_status run.status ≡ true
    → run_command run c ≡ plan_after_end run c
unfolding run_command plan_forced_machine_termination
run_command_of_terminal run (cancel force grace_ms) h = unfold plan_run_cancellation in ground arith
run_command_of_terminal run (machine_provisioned m t d s) h =
    unfold plan_machine_provisioned in ground arith
run_command_of_terminal run (provisioning_started p) h =
    unfold plan_provisioning_started in ground arith
run_command_of_terminal run (machine_running p n) h = unfold plan_machine_running in ground arith
run_command_of_terminal run (fail e p) h = unfold plan_run_failure in ground arith
run_command_of_terminal run (termination_completed f) h =
    unfold plan_cancellation_termination_completed in ground arith
run_command_of_terminal run (termination_failed e) h =
    unfold plan_cancellation_termination_failed in ground arith
run_command_of_terminal run (retry_termination r) h = unfold plan_termination_retry in ground arith
run_command_of_terminal run (ingest a) h = unfold plan_runtime_status_ingestion in ground arith
run_command_of_terminal run (delete c f) h = unfold plan_run_deletion in ground arith
run_command_of_terminal run (rename o n) h = refl

-- Either the operation is a bootstrap report on a run whose cancellation was requested, and its plan
-- ends the run with no event; or usage is settled by the plan exactly when the plan ends the run, and
-- each of its events carries the terminal timing exactly when its status is terminal, but for the
-- event of a renaming, which never does.
pub run_command_settles :
    (run : RunState) (c : RunCommand)
    → (((is_set run.cancellation_requested && is_bootstrap_report c) ≡ true)
        × (run_command run c ≡ cancelled_plan))
      ⊎ ((settles_usage (run_command run c) ≡ ends_run (run_command run c))
          × All
              (λ e.
                e.include_terminal_timing ≡ (is_terminal_run_status e.status && not (is_rename c)))
              (run_command run c).events)
unfolding run_command settles_usage
run_command_settles run (cancel force grace_ms) = unfold plan_run_cancellation in ground arith
run_command_settles run (machine_provisioned m t d s) =
    unfold plan_machine_provisioned in ground arith
run_command_settles run (provisioning_started p) = unfold plan_provisioning_started in ground arith
run_command_settles run (machine_running p n) = unfold plan_machine_running in ground arith
run_command_settles run (fail e p) = unfold plan_run_failure in ground arith
run_command_settles run (termination_completed f) =
    unfold plan_cancellation_termination_completed in ground arith
run_command_settles run (termination_failed e) =
    unfold plan_cancellation_termination_failed in ground arith
run_command_settles run (retry_termination r) = unfold plan_termination_retry in ground arith
run_command_settles run (ingest a) = unfold plan_runtime_status_ingestion in ground arith
run_command_settles run (delete c f) = unfold plan_run_deletion in ground arith
run_command_settles run (rename o n) = unfold plan_run_rename_event in ground arith

abbrev RevokesPatch : Option RunPatch → Type 0
RevokesPatch none = ⊥
RevokesPatch (some p) = p.runtime_token_hash ≡ put revoked

-- The plan makes the runtime token invalid.
abbrev pub Revokes : RunPlan → Type 0
Revokes plan = RevokesPatch plan.patch

-- A plan that ends a run which has a machine revokes the runtime token, but for a bootstrap report
-- on a run whose cancellation was requested.
pub run_command-Revokes :
    (run : RunState) (c : RunCommand)
    → has_machine run ≡ true
    → ends_run (run_command run c) ≡ true
    → ((is_set run.cancellation_requested && is_bootstrap_report c) ≡ true)
      ⊎ Revokes (run_command run c)
unfolding run_command
run_command-Revokes run (cancel force grace_ms) h e = unfold plan_run_cancellation in ground arith
run_command-Revokes run (machine_provisioned m t d s) h e =
    unfold plan_machine_provisioned in ground arith
run_command-Revokes run (provisioning_started p) h e =
    unfold plan_provisioning_started in ground arith
run_command-Revokes run (machine_running p n) h e = unfold plan_machine_running in ground arith
run_command-Revokes run (fail e' p) h e = unfold plan_run_failure in ground arith
run_command-Revokes run (termination_completed f) h e =
    unfold plan_cancellation_termination_completed in ground arith
run_command-Revokes run (termination_failed e') h e =
    unfold plan_cancellation_termination_failed in ground arith
run_command-Revokes run (retry_termination r) h e = unfold plan_termination_retry in ground arith
run_command-Revokes run (ingest a) h e = unfold plan_runtime_status_ingestion in ground arith
run_command-Revokes run (delete c f) h e = unfold plan_run_deletion in ground arith
run_command-Revokes run (rename o n) h e = cc

-- The operations that end a run of their own accord; the others that end one follow a
-- cancellation, which has dealt with the machine.
abbrev pub ends_by_itself : RunCommand → Bool
ends_by_itself (fail e p) = true
ends_by_itself (ingest a) = not (is_false a.terminate_machine)
ends_by_itself _ = false

-- No machine is left behind: a failure, or a reported end where the machine is the run's to
-- terminate, asks for exactly one job, the forced termination of the machine, where the run has a
-- machine and no compute session owns it.
pub run_command_terminates :
    (run : RunState) (c : RunCommand)
    → has_machine run ≡ true
    → truthy run.compute_session_id ≡ false
    → ends_by_itself c ≡ true
    → ends_run (run_command run c) ≡ true
    → (run_command run c).jobs ≡ forced_termination run ∷ []
unfolding run_command plan_forced_machine_termination
run_command_terminates run (fail e p) m o s h = unfold plan_run_failure in ground arith
run_command_terminates run (ingest a) m o s h = unfold plan_runtime_status_ingestion in ground arith
run_command_terminates run c m o s h = cc

abbrev pub is_retry : RunCommand → Bool
is_retry (retry_termination a) = true
is_retry _ = false

-- The number of termination jobs.
abbrev pub terminations : List RunLifecycleJob → ℕ
terminations [] = 0
terminations (RunLifecycleJob.terminate_machine j ∷ js) = suc (terminations js)
terminations (_ ∷ js) = terminations js

startup_no_termination :
    (run_id machine : Text) (t : Option StartupTimeout)
    → terminations (startup_timeout_jobs run_id machine t) ≡ 0
startup_no_termination run_id machine none = refl
startup_no_termination run_id machine (some t) = refl

-- The operations spare a compute session's machine: no operation of RunCommand, a deletion included,
-- but a retry asks for a termination while a compute session owns the machine.
pub run_command_spares_session :
    (run : RunState) (c : RunCommand)
    → truthy run.compute_session_id ≡ true
    → is_retry c ≡ false
    → terminations (run_command run c).jobs ≡ 0
unfolding run_command
run_command_spares_session run (cancel force grace_ms) h r =
    unfold plan_run_cancellation in ground arith
run_command_spares_session run (machine_provisioned m t d s) h r =
    unfold plan_machine_provisioned in ground (arith, startup_no_termination run.run_id m s)
run_command_spares_session run (provisioning_started p) h r =
    unfold plan_provisioning_started in ground arith
run_command_spares_session run (machine_running p n) h r =
    unfold plan_machine_running in ground arith
run_command_spares_session run (fail e p) h r = unfold plan_run_failure in ground arith
run_command_spares_session run (termination_completed f) h r =
    unfold plan_cancellation_termination_completed in ground arith
run_command_spares_session run (termination_failed e) h r =
    unfold plan_cancellation_termination_failed in ground arith
run_command_spares_session run (retry_termination a) h r = cc
run_command_spares_session run (ingest a) h r = unfold plan_runtime_status_ingestion in ground arith
run_command_spares_session run (delete c f) h r = unfold plan_run_deletion in ground arith
run_command_spares_session run (rename o n) h r = refl

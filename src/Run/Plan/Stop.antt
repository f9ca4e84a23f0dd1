-- ===== src/Run/Plan/Stop.antt =====
-- The cancellation, the deletion and the renaming of a run: web/convex/core/runLifecyclePlan.ts, lines
-- 192-310.
use tahuna_oss.Common.{
  ℕ, ◌/◌, Bool, true, false, not, ◌&&◌, Option, none, some, List, [], ◌∷◌, ◌++◌, if◌then◌else◌, put,
  get_or,
}
use tahuna_oss.Js.Text.{Text, lit, is_empty, truthy, decimal}
use tahuna_oss.Js.Number.{of_ℕ}
use tahuna_oss.Js.Json.{Json}
use tahuna_oss.Jobs.Types.{RunLifecycleJob}
use tahuna_oss.Jobs.Create.{create_terminate_machine_job}
use tahuna_oss.Run.Types.{
  RunStatus, cancelling, cancelled, run_status_text, is_active_run_status, is_terminal_run_status,
  RunState, no_change, RunEvent, RunPlan, no_plan, run_event, terminal_run_event,
  normalize_machine_id,
}

-- A plan with the `error` that some functions return instead of one.
pub record RunPlanResult : Type 0 where
  pub plan : RunPlan
  pub error : Option Text

unfoldable pub plan_run_cancellation : RunState → Bool → ℕ → RunPlanResult
plan_run_cancellation run force grace_ms =
    if is_terminal_run_status run.status
    then record {
      plan = no_plan;
      error = some (lit "run is already " ++ run_status_text run.status);
    }
    else if is_empty (normalize_machine_id run.provider_machine_id)
    then record {
      plan = record no_plan {
        patch =
            some (record no_change { status = put cancelled; cancellation_requested = put true });
        events =
            terminal_run_event cancelled
              (if force
                then lit "force cancellation requested before provisioning"
                else lit "run cancelled before provisioning")
              none
            ∷ [];
      };
      error = none;
    }
    else record {
      plan = record no_plan {
        patch =
            some (record no_change { status = put cancelling; cancellation_requested = put true });
        events =
            run_event cancelling
              (if force
                then lit "force cancellation requested"
                else lit "cancellation requested (grace period "
                  ++ (decimal (grace_ms / 1000) ++ lit "s before termination)"))
              none
            ∷ [];
        jobs =
            if truthy run.compute_session_id
            then []
            else RunLifecycleJob.terminate_machine (
                create_terminate_machine_job run.run_id
                  (some (of_ℕ (if force then 0 else grace_ms)))
                  (normalize_machine_id run.provider_machine_id) force none)
              ∷ [];
      };
      error = none;
    }

unfoldable pub plan_forced_machine_termination : Text → Option Text → List RunLifecycleJob
plan_forced_machine_termination run_id machine =
    if is_empty (normalize_machine_id machine)
    then []
    else RunLifecycleJob.terminate_machine
        (create_terminate_machine_job run_id none (normalize_machine_id machine) true none)
      ∷ []

-- The forced termination that a plan asks for, unless a compute session owns the machine.
abbrev pub termination_unless_session : RunState → List RunLifecycleJob
termination_unless_session run =
    if truthy run.compute_session_id
    then []
    else plan_forced_machine_termination run.run_id run.provider_machine_id

pub record RunDeletionPlan : Type 0 where
  pub plan : RunPlan
  pub error : Option Text
  pub cancel_before_delete : Bool
  pub delete_run_data : Bool

unfoldable pub plan_run_deletion : RunState → Bool → Bool → RunDeletionPlan
plan_run_deletion run cancel_active force =
    if is_active_run_status run.status && not cancel_active
    then record {
      plan = no_plan;
      error = some (lit "run is active; cancel it before deleting");
      cancel_before_delete = false;
      delete_run_data = false;
    }
    else if is_active_run_status run.status && not force
    then record {
      plan = no_plan;
      error = none;
      cancel_before_delete = true;
      delete_run_data = false;
    }
    else record {
      plan = record no_plan {
        jobs = termination_unless_session run;
        storage_operations = record { keys = get_or run.artifact_keys [] } ∷ [];
      };
      error = none;
      cancel_before_delete = false;
      delete_run_data = true;
    }

unfoldable pub plan_run_rename_event : RunStatus → Text → Text → RunEvent
plan_run_rename_event status old_name new_name =
    run_event status (lit "run renamed")
      (some (("old_name", some (Json.str old_name)) ∷ ("new_name", some (Json.str new_name)) ∷ []))

-- ===== src/Run/Command.antt =====
-- The operations on a run, one constructor for each planning function that an operation of
-- web/convex/runs.ts or web/convex/runsLifecycle.ts applies to a run, but the creation and the commit
-- of artifacts, which only adds artifact keys. A deletion goes on to delete the data of the run where
-- the planner says so; as an operation it stands for its plan. The deletion of an environment, which
-- asks for terminations of its own in web/convex/environments.ts, is no operation on a run here.
use tahuna_oss.Common.{
  ℕ, Bool, true, false, Option, none, some, [], ◌∷◌, any, Change, keep, unset, put,
}
use tahuna_oss.Js.Text.{Text}
use tahuna_oss.Js.Number.{Number}
use tahuna_oss.Js.Json.{Json}
use tahuna_oss.Run.Types.{RunStatus, is_terminal_run_status, RunState, RunPatch, RunPlan, no_plan}
use tahuna_oss.Run.Plan.{
  StartupTimeout, RetryArgs, plan_run_cancellation, plan_machine_provisioned,
  plan_provisioning_started, plan_machine_running, plan_run_failure,
  plan_cancellation_termination_completed, plan_cancellation_termination_failed,
  plan_termination_retry, plan_run_deletion, plan_run_rename_event,
}
use tahuna_oss.Run.Ingestion.{IngestionArgs, plan_runtime_status_ingestion}

pub data RunCommand : Type 0 where
  cancel : (force : Bool) (grace_ms : ℕ) → RunCommand
  machine_provisioned : Text → Option Number → Option Json → Option StartupTimeout → RunCommand
  provisioning_started : Option Json → RunCommand
  machine_running : Option Json → ℕ → RunCommand
  fail : Text → Option Json → RunCommand
  termination_completed : (force : Bool) → RunCommand
  termination_failed : Text → RunCommand
  retry_termination : RetryArgs → RunCommand
  ingest : IngestionArgs → RunCommand
  delete : (cancel_active force : Bool) → RunCommand
  rename : (old_name new_name : Text) → RunCommand

unfoldable pub run_command : RunState → RunCommand → RunPlan
run_command run (cancel force grace_ms) = (plan_run_cancellation run force grace_ms).plan
run_command run (machine_provisioned machine time metadata startup) =
    plan_machine_provisioned run machine time metadata startup
run_command run (provisioning_started payload) = plan_provisioning_started run payload
run_command run (machine_running payload now_ms) = plan_machine_running run payload now_ms
run_command run (fail error payload) = plan_run_failure run error payload
run_command run (termination_completed force) = plan_cancellation_termination_completed run force
run_command run (termination_failed error) = plan_cancellation_termination_failed run error
run_command run (retry_termination args) = plan_termination_retry run args
run_command run (ingest args) = (plan_runtime_status_ingestion run args).plan
run_command run (delete cancel_active force) = (plan_run_deletion run cancel_active force).plan
run_command run (rename old_name new_name) = record no_plan {
  events = plan_run_rename_event run.status old_name new_name ∷ [];
}

-- The reports of the bootstrap, which look at the cancellation flag before the status.
abbrev pub is_bootstrap_report : RunCommand → Bool
is_bootstrap_report (provisioning_started payload) = true
is_bootstrap_report (machine_running payload now_ms) = true
is_bootstrap_report _ = false

abbrev pub is_rename : RunCommand → Bool
is_rename (rename old_name new_name) = true
is_rename _ = false

-- `applyRunLifecyclePlan` settles the usage of a run where an event of the plan asks for it.
unfoldable pub settles_usage : RunPlan → Bool
settles_usage plan = any (λ e. e.include_terminal_timing) plan.events

abbrev pub ends_status : Change RunStatus → Bool
ends_status keep = false
ends_status unset = false
ends_status (put status) = is_terminal_run_status status

abbrev pub ends_run_patch : Option RunPatch → Bool
ends_run_patch none = false
ends_run_patch (some p) = ends_status p.status

-- The plan writes a terminal status.
abbrev pub ends_run : RunPlan → Bool
ends_run plan = ends_run_patch plan.patch

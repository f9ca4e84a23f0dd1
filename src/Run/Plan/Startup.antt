-- ===== src/Run/Plan/Startup.antt =====
-- The start of a run's machine: web/convex/core/runLifecyclePlan.ts, lines 312-431.
use tahuna_oss.Common.{
  ℕ, Bool, true, false, not, ◌||◌, Option, none, some, List, [], ◌∷◌, if◌then◌else◌, put, put_some,
  get_or,
}
use tahuna_oss.Js.Text.{Text, lit}
use tahuna_oss.Js.Number.{Number, of_ℕ, truthy_number}
use tahuna_oss.Js.Json.{Json}
use tahuna_oss.Jobs.Types.{StartupTimeoutFingerprint, RunLifecycleJob}
use tahuna_oss.Jobs.Create.{create_check_startup_timeout_job}
use tahuna_oss.Run.Types.{
  provisioning, running, cancelled, is_active_run_status, is_terminal_run_status, RunState,
  no_change, RunPlan, no_plan, is_set, run_event,
}
use tahuna_oss.Run.Plan.Creation.{provisioning_payload_metadata}

unfoldable pub should_abort_provisioning : Option RunState → Bool
should_abort_provisioning none = true
should_abort_provisioning (some run) =
    is_set run.cancellation_requested || is_terminal_run_status run.status

unfoldable pub should_terminate_machine : Option RunState → Bool → Bool
should_terminate_machine none force = force
should_terminate_machine (some run) force =
    if force
    then true
    else if not (is_set run.cancellation_requested)
    then false
    else is_active_run_status run.status

pub record StartupTimeout : Type 0 where
  pub delay_ms : Number
  pub fingerprint : StartupTimeoutFingerprint

abbrev pub startup_timeout_jobs : Text → Text → Option StartupTimeout → List RunLifecycleJob
startup_timeout_jobs run_id machine none = []
startup_timeout_jobs run_id machine (some t) =
    RunLifecycleJob.check_startup_timeout
      (create_check_startup_timeout_job run_id t.delay_ms machine t.fingerprint)
    ∷ []

unfoldable pub plan_machine_provisioned :
    RunState → Text → Option Number → Option Json → Option StartupTimeout → RunPlan
unfolding should_abort_provisioning
plan_machine_provisioned run machine creation_time provider_metadata startup =
    if should_abort_provisioning (some run) then no_plan else record no_plan {
      patch = some (record no_change {
        provider_machine_id = put machine;
        provider_creation_time =
            put_some (if truthy_number creation_time then creation_time else none);
      });
      events =
          run_event provisioning (lit "gpu machine provisioned") (
            some (
              ("provider_machine_id", some (Json.str machine))
              ∷ ("provider_metadata", provider_metadata)
              ∷ []))
          ∷ [];
      jobs = startup_timeout_jobs run.run_id machine startup;
    }

-- The plan of the two functions below for a run whose cancellation was requested.
abbrev pub cancelled_plan : RunPlan
cancelled_plan = record no_plan { patch = some (record no_change { status = put cancelled }) }

unfoldable pub plan_provisioning_started : RunState → Option Json → RunPlan
plan_provisioning_started run payload =
    if is_set run.cancellation_requested
    then cancelled_plan
    else if is_terminal_run_status run.status
    then no_plan
    else record no_plan {
      patch = some (record no_change { status = put provisioning });
      events =
          run_event provisioning (lit "runtime bootstrap started") (
            provisioning_payload_metadata payload (
              lit
                "runtime bootstrap downloads pinned code/data manifests and blobs into /workspace"))
          ∷ [];
    }

unfoldable pub plan_machine_running : RunState → Option Json → ℕ → RunPlan
plan_machine_running run payload now_ms =
    if is_set run.cancellation_requested
    then cancelled_plan
    else if is_terminal_run_status run.status
    then no_plan
    else record no_plan {
      patch = some (record no_change {
        status = put running;
        compute_started_at = put (get_or run.compute_started_at (of_ℕ now_ms));
      });
      events =
          run_event running (lit "machine running") (
            provisioning_payload_metadata payload
              (lit "machine runtime is active and reporting logs/metrics via runtime endpoints"))
          ∷ [];
    }

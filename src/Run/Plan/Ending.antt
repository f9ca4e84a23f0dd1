-- ===== src/Run/Plan/Ending.antt =====
-- The failure of a run and the outcomes of a termination: web/convex/core/runLifecyclePlan.ts, lines
-- 433-569.
use tahuna_oss.Common.{
  ℕ, Bool, true, false, not, ◌||◌, Option, none, some, [], ◌∷◌, ◌++◌, if◌then◌else◌, put,
}
use tahuna_oss.Js.Text.{Text, lit, trim, or_text, or_else, decimal, text_eq}
use tahuna_oss.Js.Number.{Number, of_ℕ}
use tahuna_oss.Js.Json.{Json, Metadata}
use tahuna_oss.Jobs.Types.{RunLifecycleJob}
use tahuna_oss.Jobs.Create.{create_terminate_machine_job}
use tahuna_oss.Run.Types.{
  RunStatus, provisioning, cancelling, failed, cancelled, is_terminal_run_status, RunState,
  no_change, RunPlan, no_plan, is_set, run_event, terminal_run_event, sanitize_runtime_message,
}
use tahuna_oss.Run.Plan.Creation.{revoked}
use tahuna_oss.Run.Plan.Stop.{termination_unless_session}

abbrev pub failure_metadata : Option Json → Option Metadata
failure_metadata none = none
failure_metadata (some payload) = some (("provisioning_payload", some payload) ∷ [])

unfoldable pub plan_run_failure : RunState → Text → Option Json → RunPlan
plan_run_failure run error payload =
    if is_terminal_run_status run.status
    then no_plan
    else let error_text = or_text (trim error) (lit "runtime bootstrap failed") in
      record no_plan {
        patch = some (record no_change {
          status = put failed;
          error = put error_text;
          runtime_token_hash = put revoked;
        });
        events = terminal_run_event failed error_text (failure_metadata payload) ∷ [];
        jobs = termination_unless_session run;
      }

unfoldable pub plan_cancellation_termination_completed : RunState → Bool → RunPlan
plan_cancellation_termination_completed run force =
    if not (is_set run.cancellation_requested) || is_terminal_run_status run.status
    then no_plan
    else record no_plan {
      patch = some (record no_change { status = put cancelled; runtime_token_hash = put revoked });
      events =
          terminal_run_event cancelled
            (if force then lit "force cancellation completed" else lit "cancellation completed")
            none
          ∷ [];
    }

unfoldable pub plan_cancellation_termination_failed : RunState → Text → RunPlan
plan_cancellation_termination_failed run error =
    if not (is_set run.cancellation_requested) || is_terminal_run_status run.status
    then no_plan
    else let error_text =
        or_text (sanitize_runtime_message (some error))
          (lit "failed to terminate machine during cancellation") in
      record no_plan {
        patch = some (record no_change {
          status = put failed;
          error = put (lit "cancellation failed: " ++ error_text);
          runtime_token_hash = put revoked;
        });
        events =
            terminal_run_event failed (lit "cancellation termination failed")
              (some (("error", some (Json.str error_text)) ∷ []))
            ∷ [];
      }

pub record RetryArgs : Type 0 where
  pub provider_machine_id : Text
  pub force : Bool
  pub attempt : ℕ
  pub max_attempts : ℕ
  pub delay_ms : Number
  pub error : Text

-- "(attempt 2/5)", the end of a retry's message.
abbrev pub attempt_text : RetryArgs → Text
attempt_text r =
    lit "(attempt " ++ (decimal r.attempt ++ (lit "/" ++ (decimal r.max_attempts ++ lit ")")))

unfoldable pub plan_termination_retry : RunState → RetryArgs → RunPlan
plan_termination_retry run r =
    if not (is_set run.cancellation_requested) || is_terminal_run_status run.status
    then no_plan
    else record no_plan {
      events =
          run_event cancelling (lit "retrying machine termination " ++ attempt_text r)
            (some (("error", some (Json.str r.error)) ∷ []))
          ∷ [];
      jobs =
          RunLifecycleJob.terminate_machine (
            create_terminate_machine_job run.run_id (some r.delay_ms) r.provider_machine_id r.force
              (some (of_ℕ r.attempt)))
          ∷ [];
    }

pub record StartupTimeoutState : Type 0 where
  pub status : RunStatus
  pub cancellation_requested : Bool
  pub provider_machine_id : Option Text

-- `status === RUN_LIFECYCLE_STATUS.PROVISIONING`
abbrev pub is_provisioning : RunStatus → Bool
is_provisioning provisioning = true
is_provisioning _ = false

unfoldable pub should_enforce_startup_timeout : Option StartupTimeoutState → Text → Bool
should_enforce_startup_timeout none machine = false
should_enforce_startup_timeout (some s) machine =
    if s.cancellation_requested || is_terminal_run_status s.status
    then false
    else if not (is_provisioning s.status)
    then false
    else text_eq (or_else s.provider_machine_id []) machine

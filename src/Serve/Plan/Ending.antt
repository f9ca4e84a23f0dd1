-- ===== src/Serve/Plan/Ending.antt =====
-- The failure of a serve and the outcomes of a termination: web/convex/core/serveLifecyclePlan.ts,
-- lines 306-476.
use tahuna_oss.Common.{ℕ, Bool, not, ◌||◌, Option, some, [], ◌∷◌, ◌++◌, if◌then◌else◌, put, unset}
use tahuna_oss.Js.Text.{Text, lit, or_text, decimal}
use tahuna_oss.Js.Number.{Number, of_ℕ}
use tahuna_oss.Js.Json.{Json, opt_text}
use tahuna_oss.Jobs.Types.{ServeLifecycleJob}
use tahuna_oss.Jobs.Create.{create_terminate_serve_machine_job}
use tahuna_oss.Serve.Types.{
  stopped, failed, is_terminal_serve_status, ServeState, no_change, ServePlan, no_plan, serve_event,
  terminal_serve_event, sanitize_serve_runtime_message,
}
use tahuna_oss.Serve.Plan.Stop.{
  revoked, optional_compact_metadata, termination_unless_session, is_stopping, stop_metadata,
}

unfoldable pub plan_serve_failure : ServeState → Text → Option Json → ServePlan
plan_serve_failure serve error payload =
    if is_stopping serve.status || is_terminal_serve_status serve.status
    then no_plan
    else let error_text =
        or_text (sanitize_serve_runtime_message (some error)) (lit "serve failed") in
      record {
        patch = some (record no_change {
          status = put failed;
          error = put error_text;
          runtime_token_hash = put revoked;
        });
        events =
            terminal_serve_event failed error_text (
              optional_compact_metadata (
                ("provisioning_payload", payload)
                ∷ ("compute_session_id", opt_text serve.compute_session_id)
                ∷ []))
            ∷ [];
        jobs = termination_unless_session serve;
      }

unfoldable pub plan_serve_stopped_after_termination : ServeState → Bool → ServePlan
plan_serve_stopped_after_termination serve force =
    if not (is_stopping serve.status) then no_plan else record no_plan {
      patch = some (record no_change { status = put stopped; runtime_token_hash = put revoked });
      events =
          terminal_serve_event stopped
            (if force then lit "force stop completed" else lit "stop completed")
            (some (stop_metadata force))
          ∷ [];
    }

unfoldable pub plan_serve_stop_termination_failed : ServeState → Text → ServePlan
plan_serve_stop_termination_failed serve error =
    if is_terminal_serve_status serve.status
    then no_plan
    else let error_text =
        or_text (sanitize_serve_runtime_message (some error))
          (lit "failed to terminate serve machine") in
      record no_plan {
        patch = some (record no_change {
          status = put failed;
          error = put (lit "serve stop failed: " ++ error_text);
          runtime_token_hash = put revoked;
        });
        events =
            terminal_serve_event failed (lit "serve machine termination failed") (
              some (
                ("error", some (Json.str error_text))
                ∷ ("source", some (Json.str (lit "control-plane")))
                ∷ []))
            ∷ [];
      }

abbrev pub billing_failure_message : Text
billing_failure_message = lit "serve compute terminated because credits are exhausted"

unfoldable pub plan_serve_compute_session_billing_failure : ServeState → Text → ServePlan
plan_serve_compute_session_billing_failure serve session =
    if is_terminal_serve_status serve.status then no_plan else record no_plan {
      patch = some (record no_change {
        status = put failed;
        error = put billing_failure_message;
        runtime_token_hash = put revoked;
        provider_machine_id = unset;
      });
      events =
          terminal_serve_event failed billing_failure_message (
            some (
              ("source", some (Json.str (lit "compute-session-billing")))
              ∷ ("compute_session_id", some (Json.str session))
              ∷ []))
          ∷ [];
    }

unfoldable pub plan_serve_compute_session_termination_failed : ServeState → Text → Text → ServePlan
plan_serve_compute_session_termination_failed serve session error =
    if is_terminal_serve_status serve.status
    then no_plan
    else let error_text =
        or_text (sanitize_serve_runtime_message (some error))
          (lit "failed to terminate compute session") in
      record no_plan {
        patch = some (record no_change {
          status = put failed;
          error = put (lit "serve compute termination failed: " ++ error_text);
          runtime_token_hash = put revoked;
        });
        events =
            terminal_serve_event failed (lit "serve compute termination failed") (
              some (
                ("source", some (Json.str (lit "compute-session")))
                ∷ ("compute_session_id", some (Json.str session))
                ∷ ("error", some (Json.str error_text))
                ∷ []))
            ∷ [];
      }

pub record RetryArgs : Type 0 where
  pub provider_machine_id : Text
  pub force : Bool
  pub attempt : ℕ
  pub max_attempts : ℕ
  pub delay_ms : Number
  pub error : Text

unfoldable pub plan_serve_termination_retry : ServeState → RetryArgs → ServePlan
plan_serve_termination_retry serve r = record no_plan {
  events =
      serve_event serve.status
        (lit "retrying serve machine termination (attempt "
          ++ (decimal r.attempt ++ (lit "/" ++ (decimal r.max_attempts ++ lit ")"))))
        (some (
          ("error", some (Json.str r.error))
          ∷ ("source", some (Json.str (lit "control-plane")))
          ∷ []))
      ∷ [];
  jobs =
      ServeLifecycleJob.terminate_serve_machine (
        create_terminate_serve_machine_job serve.serve_id (some r.delay_ms) r.provider_machine_id
          r.force (some (of_ℕ r.attempt)))
      ∷ [];
}

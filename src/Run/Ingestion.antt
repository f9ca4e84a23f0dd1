-- ===== src/Run/Ingestion.antt =====
-- `planRuntimeStatusIngestion` of web/convex/core/runLifecyclePlan.ts: a status that the runtime on
-- a machine reports, and what the control plane makes of it.
use tahuna_oss.Common.{
  ℕ, Bool, true, false, not, ◌&&◌, ◌||◌, Option, none, some, [], ◌∷◌, ◌++◌, if◌then◌else◌, keep,
  put, get_or,
}
use tahuna_oss.Js.Text.{Text, lit, or_text, or_else}
use tahuna_oss.Js.Number.{of_ℕ}
use tahuna_oss.Js.Json.{Json, Metadata}
use tahuna_oss.Run.Types.{
  RunStatus, running, completed, failed, cancelled, run_status_text, is_terminal_run_status,
  RunState, RunPatch, no_change, RunEvent, RunPlan, no_plan, is_set, run_event, terminal_run_event,
  sanitize_runtime_message,
}
use tahuna_oss.Run.Plan.{revoked, termination_unless_session, is_provisioning}

abbrev pub is_running : RunStatus → Bool
is_running running = true
is_running _ = false

abbrev pub is_failed : RunStatus → Bool
is_failed failed = true
is_failed _ = false

-- `status === COMPLETED || status === CANCELLED`
abbrev pub is_ended : RunStatus → Bool
is_ended completed = true
is_ended cancelled = true
is_ended _ = false

-- The two corrections of the reported status: a run whose cancellation was requested does not go on,
-- and a running run does not go back to provisioning.
abbrev pub respect_cancellation : Bool → RunStatus → RunStatus
respect_cancellation requested status =
    if requested && (is_provisioning status || is_running status) then cancelled else status

abbrev pub respect_running : RunStatus → RunStatus → RunStatus
respect_running current status =
    if is_running current && is_provisioning status then running else status

unfoldable pub effective_status : RunState → RunStatus → RunStatus
effective_status run status =
    respect_running run.status (respect_cancellation (is_set run.cancellation_requested) status)

pub record IngestionArgs : Type 0 where
  pub status : RunStatus
  pub message : Option Text
  pub error : Option Text
  pub now_ms : ℕ
  pub terminate_machine : Option Bool

-- A plan with the `resultStatus` that the endpoint answers.
pub record IngestionPlan : Type 0 where
  pub plan : RunPlan
  pub result_status : RunStatus

abbrev pub source_metadata : Option Metadata
source_metadata = some (("source", some (Json.str (lit "machine-runtime"))) ∷ [])

-- `args.terminateMachine === false`
abbrev pub is_false : Option Bool → Bool
is_false none = false
is_false (some b) = not b

-- `a || b` on optional strings, where b may be absent too.
abbrev pub or_option : Option Text → Option Text → Option Text
or_option none b = b
or_option (some []) b = b
or_option (some a) b = some a

unfoldable pub ingestion_error_text : IngestionArgs → Text
ingestion_error_text a =
    or_text
      (sanitize_runtime_message
        (some (or_else (or_option a.error a.message) (lit "runtime failed"))))
      (lit "runtime failed")

unfoldable pub ingestion_message : IngestionArgs → RunStatus → Text
ingestion_message a status =
    let fallback = lit "runtime status: " ++ run_status_text status in
    or_text (sanitize_runtime_message (some (or_else a.message fallback))) fallback

abbrev pub ingestion_failure : RunState → IngestionArgs → IngestionPlan
ingestion_failure run a = record {
  plan = record no_plan {
    patch = some (record no_change {
      status = put failed;
      error = put (ingestion_error_text a);
      runtime_token_hash = put revoked;
    });
    events = terminal_run_event failed (ingestion_error_text a) source_metadata ∷ [];
    jobs = if is_false a.terminate_machine then [] else termination_unless_session run;
  };
  result_status = failed;
}

abbrev pub ingestion_patch : RunState → IngestionArgs → RunStatus → RunPatch
ingestion_patch run a status = record no_change {
  status = put status;
  compute_started_at =
      if is_running status then put (get_or run.compute_started_at (of_ℕ a.now_ms)) else keep;
  runtime_token_hash = if is_ended status then put revoked else keep;
}

abbrev pub ingestion_event : IngestionArgs → RunStatus → RunEvent
ingestion_event a status =
    if is_ended status
    then terminal_run_event status (ingestion_message a status) source_metadata
    else run_event status (ingestion_message a status) source_metadata

abbrev pub ingestion_progress : RunState → IngestionArgs → RunStatus → IngestionPlan
ingestion_progress run a status = record {
  plan = record no_plan {
    patch = some (ingestion_patch run a status);
    events = ingestion_event a status ∷ [];
    jobs =
        if is_ended status && not (is_false a.terminate_machine)
        then termination_unless_session run
        else [];
  };
  result_status = status;
}

unfoldable pub plan_runtime_status_ingestion : RunState → IngestionArgs → IngestionPlan
unfolding effective_status
plan_runtime_status_ingestion run a =
    if is_terminal_run_status run.status
    then record { plan = no_plan; result_status = run.status }
    else if is_failed (effective_status run a.status)
    then ingestion_failure run a
    else ingestion_progress run a (effective_status run a.status)

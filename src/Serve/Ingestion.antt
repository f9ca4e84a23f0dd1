-- ===== src/Serve/Ingestion.antt =====
-- `planServeRuntimeStatusIngestion` of web/convex/core/serveLifecyclePlan.ts: a status that the
-- runtime on a machine reports, and what the control plane makes of it.
use tahuna_oss.Common.{
  ℕ, Bool, true, false, not, ◌&&◌, ◌||◌, Option, none, some, [], ◌∷◌, ◌++◌, if◌then◌else◌, Change,
  keep, unset, put, get_or,
}
use tahuna_oss.Js.Text.{Text, lit, or_text, or_else, truthy}
use tahuna_oss.Js.Number.{of_ℕ}
use tahuna_oss.Js.Json.{Json, Metadata, opt_text}
use tahuna_oss.Serve.Types.{
  ServeStatus, provisioning, starting, serving, stopping, stopped, failed, serve_status_text,
  is_terminal_serve_status, ServeState, ServePatch, no_change, ServeEvent, ServePlan, no_plan,
  serve_event, terminal_serve_event, sanitize_serve_runtime_message, default_serve_status_message,
  can_transition_serve_status,
}
use tahuna_oss.Serve.Plan.{revoked, compact_metadata, termination_unless_session, is_stopping}

pub record IngestionArgs : Type 0 where
  pub status : ServeStatus
  pub message : Option Text
  pub error : Option Text
  pub now_ms : ℕ

pub record IngestionPlan : Type 0 where
  pub plan : ServePlan
  pub result_status : ServeStatus
  pub error : Option Text

-- A status that a stopping serve no longer takes up.
abbrev pub is_startup_status : ServeStatus → Bool
is_startup_status provisioning = true
is_startup_status starting = true
is_startup_status serving = true
is_startup_status _ = false

abbrev pub is_serving : ServeStatus → Bool
is_serving serving = true
is_serving _ = false

abbrev pub is_failed : ServeStatus → Bool
is_failed failed = true
is_failed _ = false

abbrev pub is_stopped : ServeStatus → Bool
is_stopped stopped = true
is_stopped _ = false

-- A stopping serve whose runtime fails or stops has stopped.
unfoldable pub next_status : ServeStatus → ServeStatus → ServeStatus
next_status current status =
    if is_stopping current && (is_failed status || is_stopped status) then stopped else status

-- `a || b` on optional strings, where b may be absent too.
abbrev pub or_option : Option Text → Option Text → Option Text
or_option none b = b
or_option (some []) b = b
or_option (some a) b = some a

unfoldable pub failure_text : IngestionArgs → Text
failure_text a =
    or_text
      (sanitize_serve_runtime_message
        (some (or_else (or_option a.error a.message) (lit "serve failed"))))
      (lit "serve failed")

-- The change of the error field: the failure's text, or its removal where another status is
-- written and there is an error.
abbrev pub error_change : ServeState → IngestionArgs → ServeStatus → Change Text
error_change serve a next =
    if is_failed next then put (failure_text a) else if truthy serve.error then unset else keep

unfoldable pub ingestion_patch : ServeState → IngestionArgs → ServeStatus → ServePatch
ingestion_patch serve a next = record no_change {
  status = put next;
  error = error_change serve a next;
  runtime_token_hash = if is_failed next || is_stopped next then put revoked else keep;
  compute_started_at =
      if is_serving next then put (get_or serve.compute_started_at (of_ℕ a.now_ms)) else keep;
}

unfoldable pub event_message : IngestionArgs → ServeStatus → Text
event_message a next =
    let fallback = default_serve_status_message next in
    or_text
      (sanitize_serve_runtime_message (
        some
          (or_else (if is_failed next then or_option a.error a.message else a.message) fallback)))
      fallback

unfoldable pub ingestion_event : ServeState → IngestionArgs → ServeStatus → ServeEvent
ingestion_event serve a next =
    let metadata = some (
      compact_metadata (
        ("source", some (Json.str (lit "serve-runtime")))
        ∷ ("compute_session_id", opt_text serve.compute_session_id)
        ∷ [])) in
    if is_failed next || is_stopped next
    then terminal_serve_event next (event_message a next) metadata
    else serve_event next (event_message a next) metadata

unfoldable pub accepted_ingestion : ServeState → IngestionArgs → ServeStatus → IngestionPlan
unfolding ingestion_patch ingestion_event
accepted_ingestion serve a next = record {
  plan = record {
    patch = some (ingestion_patch serve a next);
    events = ingestion_event serve a next ∷ [];
    jobs = if is_failed next || is_stopped next then termination_unless_session serve else [];
  };
  result_status = next;
  error = none;
}

unfoldable pub plan_serve_runtime_status_ingestion : ServeState → IngestionArgs → IngestionPlan
unfolding accepted_ingestion
plan_serve_runtime_status_ingestion serve a =
    if is_terminal_serve_status serve.status
    then record { plan = no_plan; result_status = serve.status; error = none }
    else if is_stopping serve.status && is_startup_status a.status
    then record { plan = no_plan; result_status = stopping; error = none }
    else if not (can_transition_serve_status serve.status (next_status serve.status a.status))
    then record {
      plan = no_plan;
      result_status = serve.status;
      error = some (
          lit "invalid serve status transition: "
          ++ (serve_status_text serve.status
              ++ (lit " -> " ++ serve_status_text (next_status serve.status a.status))));
    }
    else accepted_ingestion serve a (next_status serve.status a.status)

abbrev pub compact_option : Option Metadata → Option Metadata
compact_option none = none
compact_option (some m) = some (compact_metadata m)

unfoldable pub merge_serve_event_metadata : ServeEvent → Option Metadata
unfolding compact_metadata
merge_serve_event_metadata event = compact_option event.metadata

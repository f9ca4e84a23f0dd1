-- ===== src/Session/Plan/Stop.antt =====
-- The stop and the end of a session: web/convex/core/computeSessionLifecyclePlan.ts, lines 280-347.
use tahuna_oss.Common.{
  ℕ, Bool, Option, none, some, [], ◌∷◌, ◌++◌, if◌then◌else◌, put, unset, keep, put_some,
}
use tahuna_oss.Js.Text.{Text, lit, is_empty}
use tahuna_oss.Js.Json.{Json, Metadata}
use tahuna_oss.Session.Types.{
  terminating, terminated, session_status_text, is_terminal_session_status, SessionState, no_change,
  SessionPlan, no_plan, session_event, normalize_machine_id, terminal_compute_ended_at,
  sanitize_detail,
}
use tahuna_oss.Session.Plan.Creation.{revoked}
use tahuna_oss.Session.Plan.Progress.{is_terminating, SessionPlanResult, refuse}

-- `sanitizeDetail(reason) || undefined`
abbrev pub stop_reason : Option Text → Option Text
stop_reason reason = let r = sanitize_detail reason in if is_empty r then none else some r

abbrev pub reason_metadata : Option Text → Metadata
reason_metadata none = []
reason_metadata (some r) = ("reason", some (Json.str r)) ∷ []

abbrev pub some_metadata : Metadata → Option Metadata
some_metadata [] = none
some_metadata (f ∷ m) = some (f ∷ m)

abbrev pub stop_without_machine : SessionState → Option Text → ℕ → SessionPlan
stop_without_machine session reason now_ms = record {
  patch = some (record no_change {
    status = put terminated;
    runtime_token_hash = put revoked;
    active_run_id = unset;
    terminated_at = put now_ms;
    termination_reason = put_some reason;
    compute_ended_at = put_some (terminal_compute_ended_at session now_ms);
  });
  events =
      session_event terminated (lit "compute session stopped before machine provisioning")
        (some_metadata (reason_metadata reason))
      ∷ [];
}

abbrev pub stop_with_machine : SessionState → Bool → Option Text → ℕ → SessionPlan
stop_with_machine session force reason now_ms = record {
  patch = some (record no_change {
    status = put terminating;
    terminating_since = if is_terminating session.status then keep else put now_ms;
    termination_reason = put_some reason;
  });
  events =
      session_event terminating (if force then lit "force stop requested" else lit "stop requested")
        (some (
          (
            "provider_machine_id",
            some (Json.str (normalize_machine_id session.provider_machine_id)),
          )
          ∷ reason_metadata reason))
      ∷ [];
}

unfoldable pub plan_compute_session_stop : SessionState → Bool → Option Text → ℕ → SessionPlanResult
plan_compute_session_stop session force reason now_ms =
    if is_terminal_session_status session.status
    then refuse (lit "compute session is already " ++ session_status_text session.status)
    else if is_empty (normalize_machine_id session.provider_machine_id)
    then record { plan = stop_without_machine session (stop_reason reason) now_ms; error = none }
    else record { plan = stop_with_machine session force (stop_reason reason) now_ms; error = none }

unfoldable pub plan_compute_session_terminated : SessionState → ℕ → SessionPlan
plan_compute_session_terminated session now_ms =
    if is_terminal_session_status session.status then no_plan else record {
      patch = some (record no_change {
        status = put terminated;
        runtime_token_hash = put revoked;
        active_run_id = unset;
        terminated_at = put now_ms;
        compute_ended_at = put_some (terminal_compute_ended_at session now_ms);
      });
      events = session_event terminated (lit "compute session terminated") none ∷ [];
    }

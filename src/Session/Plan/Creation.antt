-- ===== src/Session/Plan/Creation.antt =====
-- The creation and the failure of a compute session, which a machine that cannot be had shares:
-- web/convex/core/computeSessionLifecyclePlan.ts, lines 125-165 and 349-372.
use tahuna_oss.Common.{ℕ, none, some, [], ◌∷◌, if◌then◌else◌, put, unset, put_some}
use tahuna_oss.Js.Text.{Text, lit, or_text}
use tahuna_oss.Js.Number.{Number}
use tahuna_oss.Js.Json.{Json}
use tahuna_oss.Session.Types.{
  SessionStatus, provisioning, failed, is_terminal_session_status, SessionState, no_change,
  SessionEvent, SessionPlan, no_plan, session_event, terminal_compute_ended_at, sanitize_detail,
}

-- The token hash that marks a runtime token as no longer valid.
abbrev pub revoked : Text
revoked = lit "revoked"

pub record SessionCreationArgs : Type 0 where
  pub now_ms : ℕ
  pub user_id : Text
  pub environment_id : Text
  pub effective_gpu_type : Text
  pub effective_gpu_count : Number
  pub effective_volume_gb : Number
  pub framework : Text
  pub framework_version : Text
  pub python_version : Text
  pub image_name : Text
  pub idle_timeout_seconds : Number

-- The document that a creation inserts.
pub record NewSession : Type 0 where
  pub user_id : Text
  pub environment_id : Text
  pub status : SessionStatus
  pub effective_gpu_type : Text
  pub effective_gpu_count : Number
  pub effective_volume_gb : Number
  pub framework : Text
  pub framework_version : Text
  pub python_version : Text
  pub image_name : Text
  pub idle_timeout_seconds : Number
  pub created_at : ℕ

pub record SessionCreation : Type 0 where
  pub session : NewSession
  pub event : SessionEvent

unfoldable pub plan_compute_session_creation : SessionCreationArgs → SessionCreation
plan_compute_session_creation a = record {
  session = record {
    user_id = a.user_id;
    environment_id = a.environment_id;
    status = provisioning;
    effective_gpu_type = a.effective_gpu_type;
    effective_gpu_count = a.effective_gpu_count;
    effective_volume_gb = a.effective_volume_gb;
    framework = a.framework;
    framework_version = a.framework_version;
    python_version = a.python_version;
    image_name = a.image_name;
    idle_timeout_seconds = a.idle_timeout_seconds;
    created_at = a.now_ms;
  };
  event = session_event provisioning (lit "compute session provisioning requested") (
      some (
        ("environment_id", some (Json.str a.environment_id))
        ∷ ("gpu_type", some (Json.str a.effective_gpu_type))
        ∷ ("gpu_count", some (Json.number a.effective_gpu_count))
        ∷ ("volume_gb", some (Json.number a.effective_volume_gb))
        ∷ ("framework", some (Json.str a.framework))
        ∷ ("framework_version", some (Json.str a.framework_version))
        ∷ ("python_version", some (Json.str a.python_version))
        ∷ ("image_name", some (Json.str a.image_name))
        ∷ ("idle_timeout_seconds", some (Json.number a.idle_timeout_seconds))
        ∷ []));
}

unfoldable pub plan_compute_session_failure : SessionState → Text → ℕ → SessionPlan
plan_compute_session_failure session error now_ms =
    if is_terminal_session_status session.status
    then no_plan
    else let error_text = or_text (sanitize_detail (some error)) (lit "compute session failed") in
      record {
        patch = some (record no_change {
          status = put failed;
          error = put error_text;
          runtime_token_hash = put revoked;
          active_run_id = unset;
          terminated_at = put now_ms;
          compute_ended_at = put_some (terminal_compute_ended_at session now_ms);
        });
        events = session_event failed error_text none ∷ [];
      }

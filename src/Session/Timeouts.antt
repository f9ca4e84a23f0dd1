-- ===== src/Session/Timeouts.antt =====
-- The timeouts of web/convex/core/computeSessionLifecyclePlan.ts. `nowMs` and the timeouts are
-- natural numbers; `null` and `undefined` are both `none`.
use tahuna_oss.Common.{ℕ, ◌*◌, Bool, false, ◌&&◌, Option, none, some, if◌then◌else◌}
use tahuna_oss.Js.Number.{Number, is_finite, truthy_number, is_due}

-- `value && Number.isFinite(value)`
abbrev pub is_usable : Option Number → Bool
is_usable none = false
is_usable (some x) = truthy_number (some x) && is_finite x

-- Whether `now >= value + seconds * 1000`, for a value that is there.
abbrev pub is_past : Option Number → ℕ → ℕ → Bool
is_past none seconds now_ms = false
is_past (some x) seconds now_ms = is_due now_ms x (seconds * 1000)

pub record HeartbeatArgs : Type 0 where
  pub last_heartbeat_at : Option Number
  pub provider_creation_time : Option Number
  pub created_at : Option Number
  pub heartbeat_timeout_seconds : ℕ
  pub startup_timeout_seconds : ℕ

abbrev pub startup_started_at : HeartbeatArgs → Option Number
startup_started_at a =
    if is_usable a.provider_creation_time then a.provider_creation_time else a.created_at

unfoldable pub is_compute_session_heartbeat_timed_out : HeartbeatArgs → ℕ → Bool
is_compute_session_heartbeat_timed_out a now_ms =
    if is_usable a.last_heartbeat_at
    then is_past a.last_heartbeat_at a.heartbeat_timeout_seconds now_ms
    else if is_usable (startup_started_at a)
    then is_past (startup_started_at a) a.startup_timeout_seconds now_ms
    else false

unfoldable pub is_compute_session_idle_timed_out : Option Number → ℕ → ℕ → Bool
is_compute_session_idle_timed_out last_idle_at idle_timeout_seconds now_ms =
    if is_usable last_idle_at then is_past last_idle_at idle_timeout_seconds now_ms else false

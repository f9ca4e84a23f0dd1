-- ===== src/Session/Clock.antt =====
-- The timeouts of a compute session and the time.
use tahuna_oss.Common.{ℕ, ◌+◌, ◌*◌, ◌≤◌, ◌<◌, ◌≡◌, ◌↔◌, true, some, arith}
use tahuna_oss.Js.Number.{of_ℕ, is_due}
use tahuna_oss.Session.Timeouts.{HeartbeatArgs, is_compute_session_heartbeat_timed_out}

-- After a heartbeat at a time that is not 0, the session times out exactly when the heartbeat
-- timeout has passed, whatever its start-up times.
pub heartbeat_timed_out_iff :
    (a : HeartbeatArgs) (beat now : ℕ)
    → 0 < beat
    → a.last_heartbeat_at ≡ some (of_ℕ beat)
    → (is_compute_session_heartbeat_timed_out a now ≡ true)
      ↔ (beat + a.heartbeat_timeout_seconds * 1000 ≤ now)
unfolding is_compute_session_heartbeat_timed_out is_due
heartbeat_timed_out_iff a beat now h e = ground arith

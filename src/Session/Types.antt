-- ===== src/Session/Types.antt =====
-- The types of web/convex/core/computeSessionLifecyclePlan.ts, and its normalisations. A session's
-- status is a string in the source; here it is one of the six constants of
-- `COMPUTE_SESSION_STATUS`, or another string.
use tahuna_oss.Common.{
  ℕ, Bool, true, false, ◌&&◌, not, Option, none, some, List, [], Change, keep, if◌then◌else◌,
  get_or, is_some,
}
use tahuna_oss.Js.Text.{Text, lit, trim, slice_to, or_else, truthy}
use tahuna_oss.Js.Number.{
  Number, nan, infinite, neg_infinite, finite, negative, floor_finite, max_ℕ,
}
use tahuna_oss.Js.Json.{Metadata}

-- `other` is for strings that are none of the constants.
pub data SessionStatus : Type 0 where
  provisioning idle running terminating terminated failed : SessionStatus
  other : Text → SessionStatus

-- The string itself, as in a template literal.
unfoldable pub session_status_text : SessionStatus → Text
session_status_text provisioning = lit "provisioning"
session_status_text idle = lit "idle"
session_status_text running = lit "running"
session_status_text terminating = lit "terminating"
session_status_text terminated = lit "terminated"
session_status_text failed = lit "failed"
session_status_text (other t) = t

-- `ACTIVE_COMPUTE_SESSION_STATUSES.has(status)`
abbrev pub is_active_session_status : SessionStatus → Bool
is_active_session_status provisioning = true
is_active_session_status idle = true
is_active_session_status running = true
is_active_session_status terminating = true
is_active_session_status _ = false

-- `TERMINAL_COMPUTE_SESSION_STATUSES.has(status)`
abbrev pub is_terminal_session_status : SessionStatus → Bool
is_terminal_session_status terminated = true
is_terminal_session_status failed = true
is_terminal_session_status _ = false

pub record SessionState : Type 0 where
  pub compute_session_id : Text
  pub status : SessionStatus
  pub provider_machine_id : Option Text
  pub provider_creation_time : Option Number
  pub compute_started_at : Option Number
  pub compute_ended_at : Option Number
  pub terminating_since : Option ℕ
  pub runtime_token_hash : Option Text
  pub active_run_id : Option Text

-- Times that are always written as the current time are natural numbers.
pub record SessionPatch : Type 0 where
  pub status : Change SessionStatus
  pub error : Change Text
  pub provider_machine_id : Change Text
  pub provider_creation_time : Change Number
  pub compute_started_at : Change Number
  pub compute_ended_at : Change Number
  pub runtime_token_hash : Change Text
  pub active_run_id : Change Text
  pub last_heartbeat_at : Change ℕ
  pub last_idle_at : Change ℕ
  pub termination_reason : Change Text
  pub terminating_since : Change ℕ
  pub terminated_at : Change ℕ

-- The patch `{}`, from which the others are written.
abbrev pub no_change : SessionPatch
no_change = record {
  status = keep;
  error = keep;
  provider_machine_id = keep;
  provider_creation_time = keep;
  compute_started_at = keep;
  compute_ended_at = keep;
  runtime_token_hash = keep;
  active_run_id = keep;
  last_heartbeat_at = keep;
  last_idle_at = keep;
  termination_reason = keep;
  terminating_since = keep;
  terminated_at = keep;
}

pub record SessionEvent : Type 0 where
  pub status : SessionStatus
  pub message : Text
  pub metadata : Option Metadata

-- A plan; the list is empty where the source leaves it out, as its readers take it.
pub record SessionPlan : Type 0 where
  pub patch : Option SessionPatch
  pub events : List SessionEvent

-- The plan `{}`.
abbrev pub no_plan : SessionPlan
no_plan = record { patch = none; events = [] }

abbrev pub session_event : SessionStatus → Text → Option Metadata → SessionEvent
session_event status message metadata = record {
  status = status;
  message = message;
  metadata = metadata;
}

-- The machine id without white space around it, "" where there is none.
unfoldable pub normalize_machine_id : Option Text → Text
normalize_machine_id none = []
normalize_machine_id (some id) = trim id

-- A finite time as whole milliseconds that are not negative.
unfoldable pub normalize_timestamp : Option Number → Option ℕ
normalize_timestamp none = none
normalize_timestamp (some nan) = none
normalize_timestamp (some infinite) = none
normalize_timestamp (some neg_infinite) = none
normalize_timestamp (some (finite n d)) = some (floor_finite (finite n d))
normalize_timestamp (some (negative n d)) = some (floor_finite (negative n d))

-- The end of the compute time of a session that ends now.
unfoldable pub terminal_compute_ended_at : SessionState → ℕ → Option Number
terminal_compute_ended_at session now_ms =
    if not (is_some (normalize_timestamp session.compute_started_at))
      && not (truthy session.provider_machine_id)
    then none
    else some (
        get_or session.compute_ended_at
          (max_ℕ (get_or (normalize_timestamp session.compute_started_at) 0) now_ms))

unfoldable pub sanitize_detail : Option Text → Text
sanitize_detail value = slice_to 4000 (trim (or_else value []))

-- ===== src/Serve/Types.antt =====
-- The types of web/convex/core/serveLifecyclePlan.ts. A serve's status is a string in the source;
-- here it is one of the seven constants of `SERVE_LIFECYCLE_STATUS`, or another string.
use tahuna_oss.Common.{
  Bool, true, false, ◌||◌, Option, none, some, List, [], Change, keep, if◌then◌else◌,
}
use tahuna_oss.Js.Text.{Text, lit, trim, slice_to, or_else, text_eq}
use tahuna_oss.Js.Number.{Number}
use tahuna_oss.Js.Json.{Metadata}
use tahuna_oss.Jobs.Types.{ServeLifecycleJob}

-- `other` is for strings that are none of the constants.
pub data ServeStatus : Type 0 where
  queued provisioning starting serving stopping stopped failed : ServeStatus
  other : Text → ServeStatus

-- The string itself, as in a template literal.
unfoldable pub serve_status_text : ServeStatus → Text
serve_status_text queued = lit "queued"
serve_status_text provisioning = lit "provisioning"
serve_status_text starting = lit "starting"
serve_status_text serving = lit "serving"
serve_status_text stopping = lit "stopping"
serve_status_text stopped = lit "stopped"
serve_status_text failed = lit "failed"
serve_status_text (other t) = t

-- `TERMINAL_SERVE_LIFECYCLE_STATUSES.has(status)`
abbrev pub is_terminal_serve_status : ServeStatus → Bool
is_terminal_serve_status stopped = true
is_terminal_serve_status failed = true
is_terminal_serve_status _ = false

-- `ACTIVE_SERVE_LIFECYCLE_STATUSES.has(status)`
abbrev pub is_active_serve_status : ServeStatus → Bool
is_active_serve_status queued = true
is_active_serve_status provisioning = true
is_active_serve_status starting = true
is_active_serve_status serving = true
is_active_serve_status stopping = true
is_active_serve_status _ = false

pub record ServeState : Type 0 where
  pub serve_id : Text
  pub status : ServeStatus
  pub provider_machine_id : Option Text
  pub compute_session_id : Option Text
  pub runtime_token_hash : Option Text
  pub compute_started_at : Option Number
  pub compute_ended_at : Option Number
  pub error : Option Text

pub record ServePatch : Type 0 where
  pub status : Change ServeStatus
  pub error : Change Text
  pub provider_machine_id : Change Text
  pub runtime_token_hash : Change Text
  pub compute_started_at : Change Number
  pub compute_ended_at : Change Number

-- The patch `{}`, from which the others are written.
abbrev pub no_change : ServePatch
no_change = record {
  status = keep;
  error = keep;
  provider_machine_id = keep;
  runtime_token_hash = keep;
  compute_started_at = keep;
  compute_ended_at = keep;
}

-- `includeTerminalTiming` is false where the source leaves it out.
pub record ServeEvent : Type 0 where
  pub status : ServeStatus
  pub message : Text
  pub metadata : Option Metadata
  pub include_terminal_timing : Bool

-- A plan; the lists are empty where the source leaves them out, as its readers take them.
pub record ServePlan : Type 0 where
  pub patch : Option ServePatch
  pub events : List ServeEvent
  pub jobs : List ServeLifecycleJob

-- The plan `{}`.
abbrev pub no_plan : ServePlan
no_plan = record { patch = none; events = []; jobs = [] }

abbrev pub serve_event : ServeStatus → Text → Option Metadata → ServeEvent
serve_event status message metadata = record {
  status = status;
  message = message;
  metadata = metadata;
  include_terminal_timing = false;
}

abbrev pub terminal_serve_event : ServeStatus → Text → Option Metadata → ServeEvent
terminal_serve_event status message metadata = record (serve_event status message metadata) {
  include_terminal_timing = true;
}

-- The machine id without white space around it, "" where there is none.
unfoldable pub normalize_machine_id : Option Text → Text
normalize_machine_id none = []
normalize_machine_id (some id) = trim id

unfoldable pub sanitize_serve_runtime_message : Option Text → Text
sanitize_serve_runtime_message message = slice_to 4000 (trim (or_else message []))

unfoldable pub default_serve_status_message : ServeStatus → Text
default_serve_status_message provisioning = lit "serve provisioning"
default_serve_status_message starting = lit "serve starting"
default_serve_status_message serving = lit "serve healthy and serving"
default_serve_status_message stopping = lit "serve stopping"
default_serve_status_message stopped = lit "serve stopped"
default_serve_status_message _ = lit "serve failed"

-- `current === next`
abbrev pub serve_status_eq : ServeStatus → ServeStatus → Bool
serve_status_eq queued queued = true
serve_status_eq provisioning provisioning = true
serve_status_eq starting starting = true
serve_status_eq serving serving = true
serve_status_eq stopping stopping = true
serve_status_eq stopped stopped = true
serve_status_eq failed failed = true
serve_status_eq (other s) (other t) = text_eq s t
serve_status_eq _ _ = false

-- The tests of `next` for each `current`, behind the test that they are equal.
abbrev pub may_follow : ServeStatus → ServeStatus → Bool
may_follow queued next = serve_status_eq next provisioning || serve_status_eq next failed
may_follow provisioning next =
    serve_status_eq next starting || serve_status_eq next stopping || serve_status_eq next failed
may_follow starting next =
    serve_status_eq next serving || serve_status_eq next stopping || serve_status_eq next failed
may_follow serving next = serve_status_eq next stopping || serve_status_eq next failed
may_follow stopping next = serve_status_eq next stopped
may_follow _ next = false

unfoldable pub can_transition_serve_status : ServeStatus → ServeStatus → Bool
can_transition_serve_status current next =
    if serve_status_eq current next then true else may_follow current next

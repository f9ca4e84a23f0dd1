-- ===== src/Run/Types.antt =====
-- The types of web/convex/core/runLifecyclePlan.ts. A run's status is a string in the source; here
-- it is one of the seven constants of `RUN_LIFECYCLE_STATUS`, or another string.
use tahuna_oss.Common.{Bool, true, false, Option, none, some, List, [], Change, keep}
use tahuna_oss.Js.Text.{Text, lit, trim, slice_to, or_else}
use tahuna_oss.Js.Number.{Number}
use tahuna_oss.Js.Json.{Metadata}
use tahuna_oss.Jobs.Types.{RunLifecycleJob}

-- `other` is for strings that are none of the constants.
pub data RunStatus : Type 0 where
  queued provisioning running cancelling completed failed cancelled : RunStatus
  other : Text → RunStatus

-- The string itself, as in a template literal.
unfoldable pub run_status_text : RunStatus → Text
run_status_text queued = lit "queued"
run_status_text provisioning = lit "provisioning"
run_status_text running = lit "running"
run_status_text cancelling = lit "cancelling"
run_status_text completed = lit "completed"
run_status_text failed = lit "failed"
run_status_text cancelled = lit "cancelled"
run_status_text (other t) = t

-- `ACTIVE_RUN_STATUSES.has(status)`
abbrev pub is_active_run_status : RunStatus → Bool
is_active_run_status queued = true
is_active_run_status provisioning = true
is_active_run_status running = true
is_active_run_status cancelling = true
is_active_run_status _ = false

-- `TERMINAL_RUN_STATUSES.has(status)`
abbrev pub is_terminal_run_status : RunStatus → Bool
is_terminal_run_status completed = true
is_terminal_run_status failed = true
is_terminal_run_status cancelled = true
is_terminal_run_status _ = false

pub record RunState : Type 0 where
  pub run_id : Text
  pub status : RunStatus
  pub compute_session_id : Option Text
  pub cancellation_requested : Option Bool
  pub provider_machine_id : Option Text
  pub compute_started_at : Option Number
  pub compute_ended_at : Option Number
  pub runtime_token_hash : Option Text
  pub artifact_keys : Option (List Text)
  pub output : Option Text

pub record RunPatch : Type 0 where
  pub status : Change RunStatus
  pub cancellation_requested : Change Bool
  pub provider_machine_id : Change Text
  pub provider_creation_time : Change Number
  pub compute_started_at : Change Number
  pub compute_ended_at : Change Number
  pub runtime_token_hash : Change Text
  pub error : Change Text
  pub artifact_keys : Change (List Text)

-- The patch `{}`, from which the others are written.
abbrev pub no_change : RunPatch
no_change = record {
  status = keep;
  cancellation_requested = keep;
  provider_machine_id = keep;
  provider_creation_time = keep;
  compute_started_at = keep;
  compute_ended_at = keep;
  runtime_token_hash = keep;
  error = keep;
  artifact_keys = keep;
}

-- `includeTerminalTiming` is false where the source leaves it out.
pub record RunEvent : Type 0 where
  pub status : RunStatus
  pub message : Text
  pub metadata : Option Metadata
  pub include_terminal_timing : Bool

-- The one storage operation, `delete_indexed_storage_keys`, with its keys.
pub record StorageOperation : Type 0 where
  pub keys : List Text

-- A plan; the lists are empty where the source leaves them out, as its readers take them
-- (`plan.events ?? []`).
pub record RunPlan : Type 0 where
  pub patch : Option RunPatch
  pub events : List RunEvent
  pub jobs : List RunLifecycleJob
  pub storage_operations : List StorageOperation

-- The plan `{}`.
abbrev pub no_plan : RunPlan
no_plan = record { patch = none; events = []; jobs = []; storage_operations = [] }

-- The truthiness of an optional flag.
abbrev pub is_set : Option Bool → Bool
is_set none = false
is_set (some b) = b

abbrev pub run_event : RunStatus → Text → Option Metadata → RunEvent
run_event status message metadata = record {
  status = status;
  message = message;
  metadata = metadata;
  include_terminal_timing = false;
}

abbrev pub terminal_run_event : RunStatus → Text → Option Metadata → RunEvent
terminal_run_event status message metadata = record (run_event status message metadata) {
  include_terminal_timing = true;
}

-- The machine id without white space around it, "" where there is none.
unfoldable pub normalize_machine_id : Option Text → Text
normalize_machine_id none = []
normalize_machine_id (some id) = trim id

unfoldable pub sanitize_runtime_message : Option Text → Text
sanitize_runtime_message message = slice_to 4000 (trim (or_else message []))

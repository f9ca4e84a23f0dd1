-- ===== src/Jobs/Types.antt =====
-- The job types of web/convex/core/jobQueue.ts. A type that the source builds from `BaseRunJob` or
-- `BaseServeJob` is a record with those fields.
use tahuna_oss.Common.{ℕ, Bool, Option, List}
use tahuna_oss.Js.Text.{Text, lit}
use tahuna_oss.Js.Number.{Whole}
use tahuna_oss.Js.Json.{Metadata}

pub data CoreJobType : Type 0 where
  provision_run check_startup_timeout terminate_machine finalize_artifact : CoreJobType
  cleanup_failed_upload provision_serve check_serve_startup_timeout : CoreJobType
  terminate_serve_machine delete_serve_data : CoreJobType

-- The string that a constant of `CORE_JOB_TYPES` stands for.
unfoldable pub job_type_text : CoreJobType → Text
job_type_text provision_run = lit "provision_run"
job_type_text check_startup_timeout = lit "check_startup_timeout"
job_type_text terminate_machine = lit "terminate_machine"
job_type_text finalize_artifact = lit "finalize_artifact"
job_type_text cleanup_failed_upload = lit "cleanup_failed_upload"
job_type_text provision_serve = lit "provision_serve"
job_type_text check_serve_startup_timeout = lit "check_serve_startup_timeout"
job_type_text terminate_serve_machine = lit "terminate_serve_machine"
job_type_text delete_serve_data = lit "delete_serve_data"

pub record StartupTimeoutFingerprint : Type 0 where
  pub cloud_type : Text
  pub framework : Text
  pub version : Text
  pub python_version : Text
  pub gpu_type : Text
  pub image_name : Text

pub record ProvisionRunJob : Type 0 where
  pub run_id : Text
  pub delay_ms : ℕ
  pub idempotency_key : Text

pub record CheckStartupTimeoutJob : Type 0 where
  pub run_id : Text
  pub delay_ms : ℕ
  pub provider_machine_id : Text
  pub fingerprint : StartupTimeoutFingerprint
  pub idempotency_key : Text

pub record TerminateMachineJob : Type 0 where
  pub run_id : Text
  pub delay_ms : ℕ
  pub provider_machine_id : Text
  pub force : Bool
  pub attempt : Option Whole
  pub idempotency_key : Text

pub record FinalizeArtifactJob : Type 0 where
  pub run_id : Text
  pub delay_ms : ℕ
  pub artifact_keys : List Text
  pub idempotency_key : Text

pub record CleanupFailedUploadJob : Type 0 where
  pub run_id : Text
  pub delay_ms : ℕ
  pub artifact_key : Text
  pub reason : Option Text
  pub idempotency_key : Text

pub record ProvisionServeJob : Type 0 where
  pub serve_id : Text
  pub delay_ms : ℕ
  pub idempotency_key : Text

pub record CheckServeStartupTimeoutJob : Type 0 where
  pub serve_id : Text
  pub delay_ms : ℕ
  pub provider_machine_id : Text
  pub startup_timeout_seconds : Whole
  pub idempotency_key : Text

pub record TerminateServeMachineJob : Type 0 where
  pub serve_id : Text
  pub delay_ms : ℕ
  pub provider_machine_id : Text
  pub force : Bool
  pub attempt : Option Whole
  pub idempotency_key : Text

pub record DeleteServeDataJob : Type 0 where
  pub serve_id : Text
  pub delay_ms : ℕ
  pub idempotency_key : Text

pub data RunLifecycleJob : Type 0 where
  provision_run : ProvisionRunJob → RunLifecycleJob
  check_startup_timeout : CheckStartupTimeoutJob → RunLifecycleJob
  terminate_machine : TerminateMachineJob → RunLifecycleJob

pub data ServeLifecycleJob : Type 0 where
  provision_serve : ProvisionServeJob → ServeLifecycleJob
  check_serve_startup_timeout : CheckServeStartupTimeoutJob → ServeLifecycleJob
  terminate_serve_machine : TerminateServeMachineJob → ServeLifecycleJob

pub data CoreJob : Type 0 where
  run_lifecycle : RunLifecycleJob → CoreJob
  finalize_artifact : FinalizeArtifactJob → CoreJob
  cleanup_failed_upload : CleanupFailedUploadJob → CoreJob
  serve_lifecycle : ServeLifecycleJob → CoreJob
  delete_serve_data : DeleteServeDataJob → CoreJob

pub record CoreJobRecordInput : Type 0 where
  pub type : CoreJobType
  pub idempotency_key : Text
  pub delay_ms : ℕ
  pub payload : Metadata

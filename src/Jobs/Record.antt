-- ===== src/Jobs/Record.antt =====
-- `toCoreJobRecord` of web/convex/core/jobQueue.ts: the row of the job table that a job becomes.
use tahuna_oss.Common.{some, [], ◌∷◌}
use tahuna_oss.Js.Json.{Json, Fields, text_array, opt_text, opt_whole}
use tahuna_oss.Jobs.Types.{
  CoreJobType, StartupTimeoutFingerprint, RunLifecycleJob, ServeLifecycleJob, CoreJob,
  CoreJobRecordInput,
}

-- The fingerprint as the value that the payload holds.
abbrev pub fingerprint_json : StartupTimeoutFingerprint → Json
fingerprint_json f = Json.object (
    Fields.field "cloudType" (Json.str f.cloud_type) (
      Fields.field "framework" (Json.str f.framework) (
        Fields.field "version" (Json.str f.version) (
          Fields.field "pythonVersion" (Json.str f.python_version) (
            Fields.field "gpuType" (Json.str f.gpu_type)
              (Fields.field "imageName" (Json.str f.image_name) Fields.end))))))

unfoldable pub run_job_record : RunLifecycleJob → CoreJobRecordInput
run_job_record (RunLifecycleJob.provision_run j) = record {
  type = CoreJobType.provision_run;
  idempotency_key = j.idempotency_key;
  delay_ms = j.delay_ms;
  payload = ("runId", some (Json.str j.run_id)) ∷ [];
}
run_job_record (RunLifecycleJob.check_startup_timeout j) = record {
  type = CoreJobType.check_startup_timeout;
  idempotency_key = j.idempotency_key;
  delay_ms = j.delay_ms;
  payload =
      ("runId", some (Json.str j.run_id))
      ∷ ("providerMachineId", some (Json.str j.provider_machine_id))
      ∷ ("fingerprint", some (fingerprint_json j.fingerprint))
      ∷ [];
}
run_job_record (RunLifecycleJob.terminate_machine j) = record {
  type = CoreJobType.terminate_machine;
  idempotency_key = j.idempotency_key;
  delay_ms = j.delay_ms;
  payload =
      ("runId", some (Json.str j.run_id))
      ∷ ("providerMachineId", some (Json.str j.provider_machine_id))
      ∷ ("force", some (Json.bool j.force))
      ∷ ("attempt", opt_whole j.attempt)
      ∷ [];
}

unfoldable pub serve_job_record : ServeLifecycleJob → CoreJobRecordInput
serve_job_record (ServeLifecycleJob.provision_serve j) = record {
  type = CoreJobType.provision_serve;
  idempotency_key = j.idempotency_key;
  delay_ms = j.delay_ms;
  payload = ("serveId", some (Json.str j.serve_id)) ∷ [];
}
serve_job_record (ServeLifecycleJob.check_serve_startup_timeout j) = record {
  type = CoreJobType.check_serve_startup_timeout;
  idempotency_key = j.idempotency_key;
  delay_ms = j.delay_ms;
  payload =
      ("serveId", some (Json.str j.serve_id))
      ∷ ("providerMachineId", some (Json.str j.provider_machine_id))
      ∷ ("startupTimeoutSeconds", opt_whole (some j.startup_timeout_seconds))
      ∷ [];
}
serve_job_record (ServeLifecycleJob.terminate_serve_machine j) = record {
  type = CoreJobType.terminate_serve_machine;
  idempotency_key = j.idempotency_key;
  delay_ms = j.delay_ms;
  payload =
      ("serveId", some (Json.str j.serve_id))
      ∷ ("providerMachineId", some (Json.str j.provider_machine_id))
      ∷ ("force", some (Json.bool j.force))
      ∷ ("attempt", opt_whole j.attempt)
      ∷ [];
}

unfoldable pub to_core_job_record : CoreJob → CoreJobRecordInput
unfolding run_job_record serve_job_record
to_core_job_record (CoreJob.run_lifecycle j) = run_job_record j
to_core_job_record (CoreJob.finalize_artifact j) = record {
  type = CoreJobType.finalize_artifact;
  idempotency_key = j.idempotency_key;
  delay_ms = j.delay_ms;
  payload =
      ("runId", some (Json.str j.run_id))
      ∷ ("artifactKeys", some (text_array j.artifact_keys))
      ∷ [];
}
to_core_job_record (CoreJob.serve_lifecycle j) = serve_job_record j
to_core_job_record (CoreJob.delete_serve_data j) = record {
  type = CoreJobType.delete_serve_data;
  idempotency_key = j.idempotency_key;
  delay_ms = j.delay_ms;
  payload = ("serveId", some (Json.str j.serve_id)) ∷ [];
}
to_core_job_record (CoreJob.cleanup_failed_upload j) = record {
  type = CoreJobType.cleanup_failed_upload;
  idempotency_key = j.idempotency_key;
  delay_ms = j.delay_ms;
  payload =
      ("runId", some (Json.str j.run_id))
      ∷ ("artifactKey", some (Json.str j.artifact_key))
      ∷ ("reason", opt_text j.reason)
      ∷ [];
}

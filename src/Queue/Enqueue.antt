-- ===== src/Queue/Enqueue.antt =====
-- The functions `enqueue…` of web/convex/convexJobQueue.ts. The scheduler and the work pool are
-- services of the platform: what a function asks of them is an entry of a list of calls, the last
-- one first.
use tahuna_oss.Common.{ℕ, Bool, Option, List, [], ◌∷◌, if◌then◌else◌}
use tahuna_oss.Js.Text.{Text}
use tahuna_oss.Js.Number.{Whole}
use tahuna_oss.Jobs.Types.{
  StartupTimeoutFingerprint, RunLifecycleJob, ServeLifecycleJob, CoreJob, TerminateMachineJob,
  CleanupFailedUploadJob, CheckServeStartupTimeoutJob, TerminateServeMachineJob, CoreJobRecordInput,
}
use tahuna_oss.Jobs.Record.{to_core_job_record}
use tahuna_oss.Queue.Types.{scheduled, running, JobDb}
use tahuna_oss.Queue.Table.{upsert_core_job_record}

-- A call of the scheduler, after a delay, or of the work pool, without one.
pub data Call : Type 0 where
  provision_run : (run_id : Text) → Call
  enforce_startup_timeout :
      (delay_ms : ℕ) (run_id machine : Text) → StartupTimeoutFingerprint → Call
  terminate_machine :
      (delay_ms : ℕ) (run_id machine : Text) (force : Bool) (attempt : Option Whole) → Call
  cleanup_failed_artifact_upload : (delay_ms : ℕ) (run_id key : Text) (reason : Option Text) → Call
  provision_serve : (serve_id : Text) → Call
  enforce_serve_startup_timeout :
      (delay_ms : ℕ) (serve_id machine : Text) (startup_timeout_seconds : Whole) → Call
  terminate_serve_machine :
      (delay_ms : ℕ) (serve_id machine : Text) (force : Bool) (attempt : Option Whole) → Call
  delete_run_data : (run_id : Text) → Call

abbrev pub run_call : RunLifecycleJob → Call
run_call (RunLifecycleJob.provision_run j) = provision_run j.run_id
run_call (RunLifecycleJob.check_startup_timeout j) =
    enforce_startup_timeout j.delay_ms j.run_id j.provider_machine_id j.fingerprint
run_call (RunLifecycleJob.terminate_machine j) =
    terminate_machine j.delay_ms j.run_id j.provider_machine_id j.force j.attempt

abbrev pub serve_call : ServeLifecycleJob → Call
serve_call (ServeLifecycleJob.provision_serve j) = provision_serve j.serve_id
serve_call (ServeLifecycleJob.check_serve_startup_timeout j) =
    enforce_serve_startup_timeout j.delay_ms j.serve_id j.provider_machine_id
      j.startup_timeout_seconds
serve_call (ServeLifecycleJob.terminate_serve_machine j) =
    terminate_serve_machine j.delay_ms j.serve_id j.provider_machine_id j.force j.attempt

-- The table, and the calls made so far.
pub record Queue (S : Type 0) : Type 0 where
  pub table : S
  pub calls : List Call

abbrev pub run_record : RunLifecycleJob → CoreJobRecordInput
run_record job = to_core_job_record (CoreJob.run_lifecycle job)

abbrev pub serve_record : ServeLifecycleJob → CoreJobRecordInput
serve_record job = to_core_job_record (CoreJob.serve_lifecycle job)

module _ {S JobId : Type 0} (db : JobDb S JobId) where
  -- The common part of the two functions below: the row is written, and the call is made only
  -- where the row is new.
  unfoldable pub enqueue_once : ℕ → CoreJobRecordInput → Call → Queue S → Queue S
  enqueue_once now job call q =
      let r = upsert_core_job_record db now job scheduled q.table in
      record { table = r.state; calls = if r.created then call ∷ q.calls else q.calls }

  unfoldable pub enqueue_run_lifecycle_job : ℕ → RunLifecycleJob → Queue S → Queue S
  enqueue_run_lifecycle_job now job q = enqueue_once now (run_record job) (run_call job) q

  unfoldable pub enqueue_run_lifecycle_jobs : ℕ → List RunLifecycleJob → Queue S → Queue S
  enqueue_run_lifecycle_jobs now [] q = q
  enqueue_run_lifecycle_jobs now (job ∷ jobs) q =
      enqueue_run_lifecycle_jobs now jobs (enqueue_run_lifecycle_job now job q)

  unfoldable pub enqueue_serve_lifecycle_job : ℕ → ServeLifecycleJob → Queue S → Queue S
  enqueue_serve_lifecycle_job now job q = enqueue_once now (serve_record job) (serve_call job) q

  unfoldable pub enqueue_serve_lifecycle_jobs : ℕ → List ServeLifecycleJob → Queue S → Queue S
  enqueue_serve_lifecycle_jobs now [] q = q
  enqueue_serve_lifecycle_jobs now (job ∷ jobs) q =
      enqueue_serve_lifecycle_jobs now jobs (enqueue_serve_lifecycle_job now job q)

  -- The common part of the functions that an action calls: the row is written, and the call is
  -- made also where there was a row.
  unfoldable pub enqueue_from_action : ℕ → CoreJobRecordInput → Call → Queue S → Queue S
  enqueue_from_action now job call q = record {
    table = (upsert_core_job_record db now job scheduled q.table).state;
    calls = call ∷ q.calls;
  }

  unfoldable pub enqueue_cleanup_failed_upload_job : ℕ → CleanupFailedUploadJob → Queue S → Queue S
  enqueue_cleanup_failed_upload_job now job q =
      enqueue_from_action now (to_core_job_record (CoreJob.cleanup_failed_upload job))
        (cleanup_failed_artifact_upload job.delay_ms job.run_id job.artifact_key job.reason) q

  unfoldable pub enqueue_terminate_machine_job : ℕ → TerminateMachineJob → Queue S → Queue S
  enqueue_terminate_machine_job now job q =
      let planned = RunLifecycleJob.terminate_machine job in
      enqueue_from_action now (run_record planned) (run_call planned) q

  unfoldable pub enqueue_serve_startup_timeout_job :
      ℕ → CheckServeStartupTimeoutJob → Queue S → Queue S
  enqueue_serve_startup_timeout_job now job q =
      let planned = ServeLifecycleJob.check_serve_startup_timeout job in
      enqueue_from_action now (serve_record planned) (serve_call planned) q

  unfoldable pub enqueue_terminate_serve_machine_job :
      ℕ → TerminateServeMachineJob → Queue S → Queue S
  enqueue_terminate_serve_machine_job now job q =
      let planned = ServeLifecycleJob.terminate_serve_machine job in
      enqueue_from_action now (serve_record planned) (serve_call planned) q

  abbrev pub enqueue_run_data_deletion_batch : Text → Queue S → Queue S
  enqueue_run_data_deletion_batch run_id q = record q { calls = delete_run_data run_id ∷ q.calls }

  -- `startActionJob`, which goes through the mutation `recordRunJob` and answers the id.
  unfoldable pub start_action_job : ℕ → CoreJob → S → S × JobId
  start_action_job now job s =
      let r = upsert_core_job_record db now (to_core_job_record job) running s in
      (r.state, r.job_id)

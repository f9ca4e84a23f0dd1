-- ===== src/Queue/Table.antt =====
-- `upsertCoreJobRecord`, `markCoreJobCompleted` and `markCoreJobFailed` of
-- web/convex/convexJobQueue.ts. `now` is `Date.now()`.
use tahuna_oss.Common.{
  ℕ, ◌+◌, Bool, true, false, not, ◌&&◌, Option, none, some, List, [], ◌∷◌, put, unset,
  if◌then◌else◌,
}
use tahuna_oss.Js.Text.{Text, lit, trim, or_text}
use tahuna_oss.Jobs.Types.{CoreJobRecordInput}
use tahuna_oss.Queue.Types.{
  CoreJobStatus, completed, failed, is_running, is_completed, JobRow, JobPatch, no_change, JobDb,
}

-- The delay of a record is whole and not negative.
abbrev pub job_available_at : ℕ → ℕ → ℕ
job_available_at now delay_ms = now + delay_ms

-- The row that is inserted for a new key.
abbrev pub new_row : ℕ → CoreJobRecordInput → CoreJobStatus → JobRow
new_row now job status = record {
  type = job.type;
  idempotency_key = job.idempotency_key;
  status = status;
  payload = job.payload;
  delay_ms = job.delay_ms;
  available_at = job_available_at now job.delay_ms;
  attempts = if is_running status then 1 else 0;
  updated_at = now;
  completed_at = none;
  last_error = none;
}

-- The patch of a row that is not completed.
abbrev pub upsert_patch : ℕ → CoreJobRecordInput → CoreJobStatus → JobRow → JobPatch
upsert_patch now job status existing = record no_change {
  type = put job.type;
  payload = put job.payload;
  delay_ms = put job.delay_ms;
  available_at = put (job_available_at now job.delay_ms);
  status = put status;
  attempts = put (
      if is_running status && not (is_running existing.status)
      then existing.attempts + 1
      else existing.attempts);
  updated_at = put now;
  completed_at = unset;
}

abbrev pub completed_patch : ℕ → JobPatch
completed_patch now = record no_change {
  status = put completed;
  updated_at = put now;
  completed_at = put now;
  last_error = unset;
}

abbrev pub failed_patch : ℕ → Text → JobPatch
failed_patch now error = record no_change {
  status = put failed;
  updated_at = put now;
  last_error = put (or_text (trim error) (lit "job failed"));
}

pub record Upserted (S JobId : Type 0) : Type 0 where
  pub state : S
  pub job_id : JobId
  pub created : Bool
  pub record_before : Option JobRow

-- The operations on the table, for sequences of them.
pub data JobCommand (JobId : Type 0) : Type 0 where
  upsert : ℕ → CoreJobRecordInput → CoreJobStatus → JobCommand JobId
  complete : ℕ → JobId → JobCommand JobId
  fail : ℕ → JobId → Text → JobCommand JobId

module _ {S JobId : Type 0} (db : JobDb S JobId) where
  open db use {find, patch, insert}

  abbrev pub upsert_found :
      ℕ → CoreJobRecordInput → CoreJobStatus → S → Option (JobId × JobRow) → Upserted S JobId
  upsert_found now job status s none =
      let inserted = insert s (new_row now job status) in
      record { state = inserted.0; job_id = inserted.1; created = true; record_before = none }
  upsert_found now job status s (some (id, row)) = record {
    state = if is_completed row.status then s else patch s id (upsert_patch now job status row);
    job_id = id;
    created = false;
    record_before = some row;
  }

  unfoldable pub upsert_core_job_record :
      ℕ → CoreJobRecordInput → CoreJobStatus → S → Upserted S JobId
  upsert_core_job_record now job status s =
      upsert_found now job status s (find s job.idempotency_key)

  unfoldable pub mark_core_job_completed : ℕ → JobId → S → S
  mark_core_job_completed now id s = patch s id (completed_patch now)

  unfoldable pub mark_core_job_failed : ℕ → JobId → Text → S → S
  mark_core_job_failed now id error s = patch s id (failed_patch now error)

  unfoldable pub job_step : S → JobCommand JobId → S
  job_step s (upsert now job status) = (upsert_core_job_record now job status s).state
  job_step s (complete now id) = mark_core_job_completed now id s
  job_step s (fail now id error) = mark_core_job_failed now id error s

  unfoldable pub job_trace : S → List (JobCommand JobId) → S
  job_trace s [] = s
  job_trace s (c ∷ cs) = job_trace (job_step s c) cs

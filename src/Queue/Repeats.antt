-- ===== src/Queue/Repeats.antt =====
-- Jobs that are enqueued again.
use tahuna_oss.Common.{
  ℕ, All, All-mono, ◌≡◌, refl, ◌∙◌, some, List, [], ◌∷◌, Option-cases, inl, inr,
}
use tahuna_oss.Js.Text.{Text}
use tahuna_oss.Js.TextLaws.{text_eq_refl}
use tahuna_oss.Jobs.Types.{CoreJobRecordInput, RunLifecycleJob}
use tahuna_oss.Queue.Types.{CoreJobStatus, scheduled, JobRow, JobDb}
use tahuna_oss.Queue.Table.{new_row, upsert_found, upsert_core_job_record}
use tahuna_oss.Queue.Rows.{found-Follows}
use tahuna_oss.Queue.Enqueue.{
  Call, Queue, run_record, run_call, enqueue_once, enqueue_run_lifecycle_job,
  enqueue_run_lifecycle_jobs,
}

module _ {S JobId : Type 0} (db : JobDb S JobId) where
  open db use {find, insert, find_insert}

  -- The key has a row.
  abbrev pub HasRow : S → Text → Type 0
  HasRow s key = (found : JobId × JobRow) × (find s key ≡ some found)

  found_keeps :
      (n : ℕ) (job : CoreJobRecordInput) (status : CoreJobStatus) (s : S) (key : Text)
      → HasRow s key
      → HasRow (upsert_found db n job status s (find s job.idempotency_key)).state key
  found_keeps n job status s key ((id, row), h) =
      let (after, found, facts) =
        found-Follows db n job status s (find s job.idempotency_key) key id row refl h in
      ((id, after), found)

  found_writes :
      (n : ℕ) (job : CoreJobRecordInput) (status : CoreJobStatus) (s : S)
      → HasRow
          (upsert_found db n job status s (find s job.idempotency_key)).state
          job.idempotency_key
  found_writes n job status s = elim (Option-cases (find s job.idempotency_key)) [
    | inl e ↦ rw e (
        (
          ((insert s (new_row n job status)).1, new_row n job status),
          find_insert s (new_row n job status) job.idempotency_key e
              ∙ rw (text_eq_refl job.idempotency_key) refl,
        ))
    | inr (found, e) ↦ found_keeps n job status s job.idempotency_key (found, e)
  ]

  once-HasRow :
      (n : ℕ) (job : CoreJobRecordInput) (call : Call) (q : Queue S)
      → HasRow (enqueue_once db n job call q).table job.idempotency_key
  unfolding enqueue_once upsert_core_job_record
  once-HasRow n job call q = found_writes n job scheduled q.table

  once_keeps :
      (n : ℕ) (job : CoreJobRecordInput) (call : Call) (q : Queue S) (key : Text)
      → HasRow q.table key
      → HasRow (enqueue_once db n job call q).table key
  unfolding enqueue_once upsert_core_job_record
  once_keeps n job call q key h = found_keeps n job scheduled q.table key h

  once_known :
      (n : ℕ) (job : CoreJobRecordInput) (call : Call) (q : Queue S)
      → HasRow q.table job.idempotency_key
      → (enqueue_once db n job call q).calls ≡ q.calls
  unfolding enqueue_once upsert_core_job_record
  once_known n job call q (found, e) = rw e refl

  abbrev run_key : RunLifecycleJob → Text
  run_key job = (run_record job).idempotency_key

  jobs_keep :
      (n : ℕ) (jobs : List RunLifecycleJob) (q : Queue S) (key : Text)
      → HasRow q.table key
      → HasRow (enqueue_run_lifecycle_jobs db n jobs q).table key
  unfolding enqueue_run_lifecycle_jobs enqueue_run_lifecycle_job
  jobs_keep n [] q key h = h
  jobs_keep n (job ∷ jobs) q key h =
      jobs_keep n jobs (enqueue_once db n (run_record job) (run_call job) q) key
        (once_keeps n (run_record job) (run_call job) q key h)

  jobs-HasRow :
      (n : ℕ) (jobs : List RunLifecycleJob) (q : Queue S)
      → All (λ job. HasRow (enqueue_run_lifecycle_jobs db n jobs q).table (run_key job)) jobs
  unfolding enqueue_run_lifecycle_jobs enqueue_run_lifecycle_job
  jobs-HasRow n [] q = tt
  jobs-HasRow n (job ∷ jobs) q =
      let next = enqueue_once db n (run_record job) (run_call job) q in
      (
        jobs_keep n jobs next (run_key job) (once-HasRow n (run_record job) (run_call job) q),
        jobs-HasRow n jobs next,
      )

  jobs_known :
      (n : ℕ) (jobs : List RunLifecycleJob) (q : Queue S)
      → All (λ job. HasRow q.table (run_key job)) jobs
      → (enqueue_run_lifecycle_jobs db n jobs q).calls ≡ q.calls
  unfolding enqueue_run_lifecycle_jobs enqueue_run_lifecycle_job
  jobs_known n [] q h = refl
  jobs_known n (job ∷ jobs) q h =
      let next = enqueue_once db n (run_record job) (run_call job) q in
      jobs_known n jobs next (
        All-mono (λ j. HasRow q.table (run_key j)) (λ j. HasRow next.table (run_key j))
          (λ j k. once_keeps n (run_record job) (run_call job) q (run_key j) k) jobs h.1)
      ∙ once_known n (run_record job) (run_call job) q h.0

  -- The jobs of a plan that are enqueued a second time, at any later time, and after any further
  -- jobs, call neither the scheduler nor the work pool.
  pub enqueue_run_lifecycle_jobs_again :
      (n m k : ℕ) (jobs others : List RunLifecycleJob) (q : Queue S)
      → let q' = enqueue_run_lifecycle_jobs db m others (enqueue_run_lifecycle_jobs db n jobs q) in
        (enqueue_run_lifecycle_jobs db k jobs q').calls ≡ q'.calls
  enqueue_run_lifecycle_jobs_again n m k jobs others q =
      let first = enqueue_run_lifecycle_jobs db n jobs q in
      jobs_known k jobs (enqueue_run_lifecycle_jobs db m others first) (
        All-mono (λ j. HasRow first.table (run_key j))
          (λ j. HasRow (enqueue_run_lifecycle_jobs db m others first).table (run_key j))
          (λ j h. jobs_keep m others first (run_key j) h) jobs (jobs-HasRow n jobs q))

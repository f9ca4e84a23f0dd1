-- ===== src/Queue/Rows.antt =====
-- The row of a key through a sequence of operations on the table.
use native.Mathlib.Nat.{le_trans}
use tahuna_oss.Common.{
  ℕ, All, ◌≡◌, refl, sym, ◌∙◌, ap, ◌≤◌, Bool, true, false, not, ◌||◌, Option, none, some, List, [],
  ◌∷◌, arith, ltb, Bool-cases, inl, inr,
}
use tahuna_oss.Js.Text.{Text, text_eq}
use tahuna_oss.Js.TextLaws.{text_eq→eq}
use tahuna_oss.Jobs.Types.{CoreJobRecordInput}
use tahuna_oss.Queue.Types.{
  CoreJobStatus, is_running, is_completed, JobRow, JobPatch, patched, patch_found, JobDb,
}
use tahuna_oss.Queue.Table.{
  new_row, upsert_patch, completed_patch, failed_patch, JobCommand, upsert, complete, fail,
  upsert_core_job_record, upsert_found, mark_core_job_completed, mark_core_job_failed, job_step,
  job_trace,
}

-- A job that runs has been attempted.
abbrev pub IsCounted : JobRow → Type 0
IsCounted row = (not (is_running row.status) || ltb 0 row.attempts) ≡ true

abbrev pub is_upsert : {JobId : Type 0} → JobCommand JobId → Bool
is_upsert (upsert now job status) = true
is_upsert _ = false

-- What an operation does to a row.
pub record RowFacts (row after : JobRow) : Type 0 where
  pub attempts_grow : row.attempts ≤ after.attempts
  pub stays_counted : IsCounted row → IsCounted after

row_stays : (row : JobRow) → RowFacts row row
row_stays row = record { attempts_grow = omega arith; stays_counted = λ h. h }

completed_facts : (n : ℕ) (row : JobRow) → RowFacts row (patched (completed_patch n) row)
completed_facts n row = ground arith

failed_facts : (n : ℕ) (e : Text) (row : JobRow) → RowFacts row (patched (failed_patch n e) row)
failed_facts n e row = ground arith

upsert_facts :
    (n : ℕ) (job : CoreJobRecordInput) (status : CoreJobStatus) (row : JobRow)
    → RowFacts row (patched (upsert_patch n job status row) row)
upsert_facts n job status row = ground arith

module _ {S JobId : Type 0} (db : JobDb S JobId) where
  open db use {find, patch, insert, same, find_patch, find_insert, same_found}

  -- The key still has the row of this id, with the facts of an operation.
  abbrev pub Follows : S → Text → JobId → JobRow → Type 0
  Follows t key id row = (after : JobRow) × (find t key ≡ some (id, after)) × RowFacts row after

  patch-Follows :
      (s : S) (other : JobId) (p : JobPatch) (key : Text) (id : JobId) (row : JobRow)
      → find s key ≡ some (id, row)
      → (same other id ≡ true → RowFacts row (patched p row))
      → Follows (patch s other p) key id row
  patch-Follows s other p key id row h facts =
      let found = find_patch s other p key ∙ ap (patch_found same other p) h in
      elim (Bool-cases (same other id)) [
        | inl e ↦ (patched p row, found ∙ rw e refl, facts e)
        | inr e ↦ (row, found ∙ rw e refl, row_stays row)
      ]

  row_of_same :
      (s : S) (key key' : Text) (id id' : JobId) (row row' : JobRow)
      → find s key ≡ some (id, row)
      → find s key' ≡ some (id', row')
      → same id id' ≡ true
      → row ≡ row'
  row_of_same s key key' id id' row row' h h' e =
      let k = text_eq→eq key key' (sym (same_found s key key' id id' row row' h h') ∙ e) in
      cc (h, h', ap (find s) k)

  -- A key that has a row is not the key of an insertion.
  insert-Follows :
      (s : S) (added : JobRow) (key : Text) (id : JobId) (row : JobRow)
      → find s added.idempotency_key ≡ none
      → find s key ≡ some (id, row)
      → Follows (insert s added).0 key id row
  insert-Follows s added key id row free h = elim (Bool-cases (text_eq added.idempotency_key key)) [
    | inl e ↦ let k = text_eq→eq added.idempotency_key key e in cc (free, h, ap (find s) k)
    | inr e ↦ (row, find_insert s added key free ∙ rw e h, row_stays row)
  ]

  pub found-Follows :
      (n : ℕ) (job : CoreJobRecordInput) (status : CoreJobStatus) (s : S)
      (o : Option (JobId × JobRow)) (key : Text) (id : JobId) (row : JobRow)
      → find s job.idempotency_key ≡ o
      → find s key ≡ some (id, row)
      → Follows (upsert_found db n job status s o).state key id row
  found-Follows n job status s none key id row free h =
      insert-Follows s (new_row n job status) key id row free h
  found-Follows n job status s (some (other, old)) key id row there h =
      elim (Bool-cases (is_completed old.status)) [
        | inl e ↦ (row, rw e h, row_stays row)
        | inr e ↦ rw e (
            patch-Follows s other (upsert_patch n job status old) key id row h λ same_id.
              let r = row_of_same s job.idempotency_key key other id old row there h same_id in
              rw r (upsert_facts n job status row))
      ]

  step-Follows :
      (s : S) (c : JobCommand JobId) (key : Text) (id : JobId) (row : JobRow)
      → find s key ≡ some (id, row)
      → Follows (job_step db s c) key id row
  unfolding job_step upsert_core_job_record mark_core_job_completed mark_core_job_failed
  step-Follows s (upsert n job status) key id row h =
      found-Follows n job status s (find s job.idempotency_key) key id row refl h
  step-Follows s (complete n other) key id row h =
      patch-Follows s other (completed_patch n) key id row h λ e. completed_facts n row
  step-Follows s (fail n other error) key id row h =
      patch-Follows s other (failed_patch n error) key id row h λ e. failed_facts n error row

  -- Whatever operations follow, a key that has a row keeps it under the same id, its number of
  -- attempts never decreases, and if it was so before, the row of a running job counts an attempt.
  pub job_trace-find :
      (s : S) (cs : List (JobCommand JobId)) (key : Text) (id : JobId) (row : JobRow)
      → find s key ≡ some (id, row)
      → IsCounted row
      → (after : JobRow) × (find (job_trace db s cs) key ≡ some (id, after))
        × (row.attempts ≤ after.attempts)
        × IsCounted after
  unfolding job_trace
  job_trace-find s [] key id row h k = (row, h, omega arith, k)
  job_trace-find s (c ∷ cs) key id row h k =
      let (next, found, facts) = step-Follows s c key id row h in
      let (after, found', grow, counted) =
        job_trace-find (job_step db s c) cs key id next found (facts.stays_counted k) in
      (after, found', le_trans facts.attempts_grow grow, counted)

  completed_found :
      (n : ℕ) (job : CoreJobRecordInput) (status : CoreJobStatus) (s : S)
      (o : Option (JobId × JobRow)) (key : Text) (id : JobId) (row : JobRow)
      → find s job.idempotency_key ≡ o
      → find s key ≡ some (id, row)
      → is_completed row.status ≡ true
      → find (upsert_found db n job status s o).state key ≡ some (id, row)
  completed_found n job status s none key id row free h c =
      elim (Bool-cases (text_eq job.idempotency_key key)) [
        | inl e ↦ let k = text_eq→eq job.idempotency_key key e in cc (free, h, ap (find s) k)
        | inr e ↦ find_insert s (new_row n job status) key free ∙ rw e h
      ]
  completed_found n job status s (some (other, old)) key id row there h c =
      elim (Bool-cases (is_completed old.status)) [
        | inl e ↦ rw e h
        | inr e ↦
            let p = upsert_patch n job status old in
            let found = find_patch s other p key ∙ ap (patch_found same other p) h in
            elim (Bool-cases (same other id)) [
              | inl same_id ↦
                  let r = row_of_same s job.idempotency_key key other id old row there h same_id in
                  cc (e, c, r)
              | inr differ ↦ rw e (found ∙ rw differ refl)
            ]
      ]

  -- A job that is completed is not opened again: its row does not change at all, whatever jobs are
  -- recorded or enqueued afterwards.
  pub job_trace-completed :
      (s : S) (cs : List (JobCommand JobId)) (key : Text) (id : JobId) (row : JobRow)
      → All (λ c. is_upsert c ≡ true) cs
      → find s key ≡ some (id, row)
      → is_completed row.status ≡ true
      → find (job_trace db s cs) key ≡ some (id, row)
  unfolding job_trace job_step upsert_core_job_record
  job_trace-completed s [] key id row v h c = h
  job_trace-completed s (upsert n job status ∷ cs) key id row v h c =
      job_trace-completed (upsert_core_job_record db n job status s).state cs key id row v.1
        (completed_found n job status s (find s job.idempotency_key) key id row refl h c) c
  job_trace-completed s (complete n other ∷ cs) key id row v h c = cc (v.0)
  job_trace-completed s (fail n other e ∷ cs) key id row v h c = cc (v.0)

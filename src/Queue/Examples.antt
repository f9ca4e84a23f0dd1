-- ===== src/Queue/Examples.antt =====
-- A table by functions, tests of the queue, and the theorems at concrete tables.
use tahuna_oss.Common.{
  ◌≡◌, refl, sym, ap, ◌≤◌, true, Option, none, some, List, [], ◌∷◌, Bool-cases, inl, inr,
  if◌then◌else◌,
}
use tahuna_oss.Js.Text.{Text, lit, text_eq}
use tahuna_oss.Js.TextLaws.{text_eq→eq}
use tahuna_oss.Jobs.Types.{CoreJobType, CoreJobRecordInput, RunLifecycleJob}
use tahuna_oss.Jobs.Create.{create_provision_run_job, create_terminate_machine_job}
use tahuna_oss.Queue.Types.{
  scheduled, running, completed, JobRow, JobPatch, patched, patch_found, JobDb,
}
use tahuna_oss.Queue.Table.{JobCommand, upsert, complete, fail, job_trace}
use tahuna_oss.Queue.Enqueue.{Queue, enqueue_run_lifecycle_jobs}
use tahuna_oss.Queue.Rows.{IsCounted, job_trace-find, job_trace-completed}
use tahuna_oss.Queue.Repeats.{enqueue_run_lifecycle_jobs_again}

abbrev Rows : Type 0
Rows = Text → Option JobRow

-- The id of a row is its key.
abbrev with_id : Text → Option JobRow → Option (Text × JobRow)
with_id key none = none
with_id key (some row) = some (key, row)

abbrev patch_at : Text → JobPatch → Text → Option JobRow → Option JobRow
patch_at id p key none = none
patch_at id p key (some row) = some (if text_eq id key then patched p row else row)

patch_at_lem :
    (id : Text) (p : JobPatch) (key : Text) (o : Option JobRow)
    → with_id key (patch_at id p key o) ≡ patch_found text_eq id p (with_id key o)
patch_at_lem id p key none = refl
patch_at_lem id p key (some row) = refl

insert_lem :
    (s : Rows) (row : JobRow) (key : Text)
    → with_id key (if text_eq row.idempotency_key key then some row else s key) ≡ (
        if text_eq row.idempotency_key key
        then some (row.idempotency_key, row)
        else with_id key (s key))
insert_lem s row key = elim (Bool-cases (text_eq row.idempotency_key key)) [
  | inl e ↦ rw e (ap (λ k. some (k, row)) (sym (text_eq→eq row.idempotency_key key e)))
  | inr e ↦ rw e refl
]

id_of_found :
    (o : Option JobRow) (key id : Text) (row : JobRow) → with_id key o ≡ some (id, row) → key ≡ id
id_of_found none key id row h = cc
id_of_found (some r) key id row h = cc

same_lem :
    (s : Rows) (key key' id id' : Text) (row row' : JobRow)
    → with_id key (s key) ≡ some (id, row)
    → with_id key' (s key') ≡ some (id', row')
    → text_eq id id' ≡ text_eq key key'
same_lem s key key' id id' row row' h h' =
    cc (id_of_found (s key) key id row h, id_of_found (s key') key' id' row' h')

abbrev tables : JobDb Rows Text
tables = record {
  find = λ s key. with_id key (s key);
  patch = λ s id p key. patch_at id p key (s key);
  insert = λ s row.
      (λ key. if text_eq row.idempotency_key key then some row else s key, row.idempotency_key);
  same = text_eq;
  find_patch = λ s id p key. patch_at_lem id p key (s key);
  find_insert = λ s row key free. insert_lem s row key;
  same_found = λ s key key' id id' row row' h h'. same_lem s key key' id id' row row' h h';
}

abbrev job : CoreJobRecordInput
job = record {
  type = CoreJobType.provision_run;
  idempotency_key = lit "run:r:provision_run";
  delay_ms = 5;
  payload = [];
}

abbrev row : JobRow
row = record {
  type = CoreJobType.provision_run;
  idempotency_key = lit "run:r:provision_run";
  status = running;
  payload = [];
  delay_ms = 0;
  available_at = 0;
  attempts = 1;
  updated_at = 0;
  completed_at = none;
  last_error = none;
}

abbrev ended : JobRow
ended = record row { status = completed }

abbrev holding : JobRow → Rows
holding r key = if text_eq r.idempotency_key key then some r else none

abbrev history : List (JobCommand Text)
history =
    upsert 10 job scheduled
    ∷ upsert 20 job running
    ∷ fail 30 (lit "run:r:provision_run") (lit " ")
    ∷ upsert 40 job running
    ∷ complete 50 (lit "run:r:provision_run")
    ∷ []

job_trace-find_example :
    (after : JobRow) × (tables.find
        (job_trace tables (holding row) history)
        (lit "run:r:provision_run")
      ≡ some (lit "run:r:provision_run", after))
    × (1 ≤ after.attempts)
    × IsCounted after
unfolding text_eq lit
job_trace-find_example =
    job_trace-find tables (holding row) history (lit "run:r:provision_run")
      (lit "run:r:provision_run") row refl refl

job_trace-completed_example :
    tables.find
      (job_trace tables (holding ended) (upsert 10 job scheduled ∷ upsert 20 job running ∷ []))
      (lit "run:r:provision_run")
    ≡ some (lit "run:r:provision_run", ended)
unfolding text_eq lit
job_trace-completed_example =
    job_trace-completed tables (holding ended)
      (upsert 10 job scheduled ∷ upsert 20 job running ∷ []) (lit "run:r:provision_run")
      (lit "run:r:provision_run") ended (refl, (refl, tt)) refl refl

abbrev planned : List RunLifecycleJob
planned =
    RunLifecycleJob.provision_run (create_provision_run_job (lit "r") none)
    ∷ RunLifecycleJob.terminate_machine
        (create_terminate_machine_job (lit "r") none (lit "m") true none)
    ∷ []

abbrev nothing_yet : Queue Rows
nothing_yet = record { table = λ key. none; calls = [] }

enqueue_run_lifecycle_jobs_again_example :
    let q = enqueue_run_lifecycle_jobs tables 1 planned nothing_yet in
    (enqueue_run_lifecycle_jobs tables 3 planned (enqueue_run_lifecycle_jobs tables 2 [] q)).calls
    ≡ (enqueue_run_lifecycle_jobs tables 2 [] q).calls
enqueue_run_lifecycle_jobs_again_example =
    enqueue_run_lifecycle_jobs_again tables 1 2 3 planned [] nothing_yet

-- ===== src/Queue/Types.antt =====
-- The rows of the job table (`jobs` in web/convex/schema.ts), a patch of a row, and the part of the
-- database that web/convex/convexJobQueue.ts uses. A count of attempts is a natural number: every
-- write of one is 0, 1 or one more than before.
use tahuna_oss.Common.{
  ℕ, ◌≡◌, Bool, true, false, Option, none, some, Change, keep, change, change_required,
  if◌then◌else◌,
}
use tahuna_oss.Js.Text.{Text, text_eq}
use tahuna_oss.Js.Json.{Metadata}
use tahuna_oss.Jobs.Types.{CoreJobType}

pub data CoreJobStatus : Type 0 where
  scheduled running completed failed : CoreJobStatus

abbrev pub is_running : CoreJobStatus → Bool
is_running running = true
is_running _ = false

abbrev pub is_completed : CoreJobStatus → Bool
is_completed completed = true
is_completed _ = false

pub record JobRow : Type 0 where
  pub type : CoreJobType
  pub idempotency_key : Text
  pub status : CoreJobStatus
  pub payload : Metadata
  pub delay_ms : ℕ
  pub available_at : ℕ
  pub attempts : ℕ
  pub updated_at : ℕ
  pub completed_at : Option ℕ
  pub last_error : Option Text

-- A patch never has the idempotency key.
pub record JobPatch : Type 0 where
  pub type : Change CoreJobType
  pub status : Change CoreJobStatus
  pub payload : Change Metadata
  pub delay_ms : Change ℕ
  pub available_at : Change ℕ
  pub attempts : Change ℕ
  pub updated_at : Change ℕ
  pub completed_at : Change ℕ
  pub last_error : Change Text

abbrev pub no_change : JobPatch
no_change = record {
  type = keep;
  status = keep;
  payload = keep;
  delay_ms = keep;
  available_at = keep;
  attempts = keep;
  updated_at = keep;
  completed_at = keep;
  last_error = keep;
}

-- The documented effect of `ctx.db.patch` on a document.
abbrev pub patched : JobPatch → JobRow → JobRow
patched p row = record row {
  type = change_required p.type row.type;
  status = change_required p.status row.status;
  payload = change_required p.payload row.payload;
  delay_ms = change_required p.delay_ms row.delay_ms;
  available_at = change_required p.available_at row.available_at;
  attempts = change_required p.attempts row.attempts;
  updated_at = change_required p.updated_at row.updated_at;
  completed_at = change p.completed_at row.completed_at;
  last_error = change p.last_error row.last_error;
}

abbrev pub patch_found :
    {JobId : Type 0}
    → (JobId → JobId → Bool)
    → JobId
    → JobPatch
    → Option (JobId × JobRow)
    → Option (JobId × JobRow)
patch_found same id p none = none
patch_found same id p (some (other, row)) =
    some (other, if same id other then patched p row else row)

-- The database: a lookup through the index of idempotency keys, a patch by id, and an insertion.
-- The laws are asked for insertions of a key that has no row, the only ones that the source makes.
pub record JobDb (S JobId : Type 0) : Type 1 where
  pub find : S → Text → Option (JobId × JobRow)
  pub patch : S → JobId → JobPatch → S
  pub insert : S → JobRow → S × JobId
  pub same : JobId → JobId → Bool
  pub find_patch :
      (s : S) (id : JobId) (p : JobPatch) (key : Text)
      → find (patch s id p) key ≡ patch_found same id p (find s key)
  pub find_insert :
      (s : S) (row : JobRow) (key : Text)
      → find s row.idempotency_key ≡ none
      → find (insert s row).0 key
        ≡ (if text_eq row.idempotency_key key then some ((insert s row).1, row) else find s key)
  pub same_found :
      (s : S) (key key' : Text) (id id' : JobId) (row row' : JobRow)
      → find s key ≡ some (id, row)
      → find s key' ≡ some (id', row')
      → same id id' ≡ text_eq key key'

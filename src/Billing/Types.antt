-- ===== src/Billing/Types.antt =====
-- The tables of the ledger (`userCredits` and `usageEvents` in web/convex/cloud/schema.ts), and the
-- part of the database that web/convex/cloud/credits.ts uses. Every write of an amount is a whole
-- number, so amounts are integers.
use tahuna_oss.Common.{ℕ, ◌≡◌, Option, none, some, List, [], ◌∷◌, ◌++◌, if◌then◌else◌}
use tahuna_oss.Common.Int.{ℤ}
use tahuna_oss.Js.Text.{Text, text_eq}
use tahuna_oss.Js.Number.{Number}
use tahuna_oss.Js.Json.{Metadata}

-- The settings that the environment of the process gives, read by web/cloud/config.ts.
pub record BillingConfig : Type 0 where
  pub initial_credit_cents : Number
  pub currency : Text

pub record CreditsRow : Type 0 where
  pub user_id : Text
  pub balance_cents : ℤ
  pub currency : Text
  pub updated_at : ℕ

pub record CreditsPatch : Type 0 where
  pub balance_cents : ℤ
  pub updated_at : ℕ

pub record UsageEvent : Type 0 where
  pub user_id : Text
  pub event_type : Text
  pub credits_delta_cents : ℤ
  pub balance_after_cents : ℤ
  pub idempotency_key : Option Text
  pub reference_type : Option Text
  pub reference_id : Option Text
  pub metadata : Option Metadata
  pub updated_at : ℕ

-- The one patch of an event, which has every field but the user and the idempotency key.
pub record EventPatch : Type 0 where
  pub event_type : Text
  pub credits_delta_cents : ℤ
  pub balance_after_cents : ℤ
  pub reference_type : Option Text
  pub reference_id : Option Text
  pub metadata : Option Metadata
  pub updated_at : ℕ

abbrev pub patched_credits : CreditsPatch → CreditsRow → CreditsRow
patched_credits p row = record row { balance_cents = p.balance_cents; updated_at = p.updated_at }

abbrev pub patched_event : EventPatch → UsageEvent → UsageEvent
patched_event p e = record e {
  event_type = p.event_type;
  credits_delta_cents = p.credits_delta_cents;
  balance_after_cents = p.balance_after_cents;
  reference_type = p.reference_type;
  reference_id = p.reference_id;
  metadata = p.metadata;
  updated_at = p.updated_at;
}

-- The database: the credits of a user, the events of a user in the order of their creation, and the
-- insertions and patches, each with what it leaves alone. A patch goes to the row of its id.
pub record LedgerDb (S CreditsId EventId : Type 0) : Type 1 where
  pub credits : S → Text → Option (CreditsId × CreditsRow)
  pub events : S → Text → List (EventId × UsageEvent)
  pub insert_credits : S → CreditsRow → S × CreditsId
  pub patch_credits : S → CreditsId → CreditsPatch → S
  pub insert_event : S → UsageEvent → S × EventId
  pub patch_event : S → EventId → EventPatch → S
  pub get_credits : S → CreditsId → Option CreditsRow
  pub credits_id_text : CreditsId → Text
  pub get-insert_credits :
      (s : S) (row : CreditsRow)
      → get_credits (insert_credits s row).0 (insert_credits s row).1 ≡ some row
  pub get-insert_event :
      (s : S) (e : UsageEvent) (id : CreditsId)
      → get_credits (insert_event s e).0 id ≡ get_credits s id
  pub credits-insert_credits :
      (s : S) (row : CreditsRow) (user : Text)
      → credits s row.user_id ≡ none
      → credits (insert_credits s row).0 user ≡ (
          if text_eq row.user_id user then some ((insert_credits s row).1, row) else credits s user)
  pub events-insert_credits :
      (s : S) (row : CreditsRow) (user : Text)
      → events (insert_credits s row).0 user ≡ events s user
  pub credits-patch_credits :
      (s : S) (owner : Text) (id : CreditsId) (row : CreditsRow) (p : CreditsPatch) (user : Text)
      → credits s owner ≡ some (id, row)
      → credits (patch_credits s id p) user
        ≡ (if text_eq owner user then some (id, patched_credits p row) else credits s user)
  pub events-patch_credits :
      (s : S) (id : CreditsId) (p : CreditsPatch) (user : Text)
      → events (patch_credits s id p) user ≡ events s user
  pub events-insert_event :
      (s : S) (e : UsageEvent) (user : Text)
      → events (insert_event s e).0 user ≡ (
          if text_eq e.user_id user
          then events s user ++ ((insert_event s e).1, e) ∷ []
          else events s user)
  pub credits-insert_event :
      (s : S) (e : UsageEvent) (user : Text) → credits (insert_event s e).0 user ≡ credits s user
  pub events-patch_event :
      (s : S) (owner : Text) (before rest : List (EventId × UsageEvent)) (id : EventId)
      (e : UsageEvent) (p : EventPatch) (user : Text)
      → events s owner ≡ before ++ (id, e) ∷ rest
      → events (patch_event s id p) user
        ≡ (if text_eq owner user then before ++ (id, patched_event p e) ∷ rest else events s user)
  pub credits-patch_event :
      (s : S) (id : EventId) (p : EventPatch) (user : Text)
      → credits (patch_event s id p) user ≡ credits s user

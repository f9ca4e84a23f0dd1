-- ===== src/Billing/Credits/Entries.antt =====
-- The arguments and the results of the ledger, their normalisation, and the amounts of an entry and
-- of a debit, in web/convex/cloud/credits.ts.
use tahuna_oss.Common.{
  ℕ, suc, ◌-◌, ◌/◌, Bool, true, false, not, ◌||◌, Option, none, some, List, [], ◌∷◌, ◌==◌,
  if◌then◌else◌,
}
use tahuna_oss.Common.Int.{ℤ, pos, neg_part, neg_ℕ, eq_ℤ, min_ℤ, ◌+ℤ◌, ◌-ℤ◌}
use tahuna_oss.Js.Text.{Text, lit, trim, is_empty, text_eq}
use tahuna_oss.Js.Number.{Number, finite, negative, of_ℕ}
use tahuna_oss.Js.Json.{Metadata}
use tahuna_oss.Mutation.{Result, ok, err}
use tahuna_oss.Billing.Types.{UsageEvent, EventPatch}

pub record CreditEventArgs : Type 0 where
  pub user_id : Text
  pub amount_cents : Number
  pub event_type : Text
  pub idempotency_key : Option Text
  pub reference_type : Option Text
  pub reference_id : Option Text
  pub metadata : Option Metadata

pub record LedgerEntryArgs : Type 0 where
  pub user_id : Text
  pub delta_cents : Number
  pub event_type : Text
  pub idempotency_key : Option Text
  pub reference_type : Option Text
  pub reference_id : Option Text
  pub metadata : Option Metadata

pub record LedgerEntryResult : Type 0 where
  pub balance_cents : ℤ
  pub applied : Bool
  pub delta_cents : ℤ

abbrev pub entry_result : ℤ → ℤ → LedgerEntryResult
entry_result balance delta = record { balance_cents = balance; applied = true; delta_cents = delta }

pub record DebitTotalArgs : Type 0 where
  pub user_id : Text
  pub target_debit_cents : ℕ
  pub event_type : Text
  pub idempotency_key : Text
  pub reference_type : Option Text
  pub reference_id : Option Text
  pub metadata : Option Metadata

pub record DebitTotalResult : Type 0 where
  pub balance_cents : ℤ
  pub debited_cents : ℤ
  pub applied_cents : ℤ

unfoldable pub normalize_user_id : Text → Result Text
normalize_user_id value =
    if is_empty (trim value) then err (lit "user_id is required") else ok (trim value)

-- `Math.trunc` of a finite number.
unfoldable pub normalize_ledger_delta : Number → Result ℤ
normalize_ledger_delta (finite n d) = ok (pos (n / suc d))
normalize_ledger_delta (negative n d) = ok (neg_ℕ (suc n / suc d))
normalize_ledger_delta _ = err (lit "amount must be a finite number")

unfoldable pub normalize_cents : Number → Result ℕ
normalize_cents (finite n d) =
    if n / suc d == 0 then err (lit "amount must be greater than zero") else ok (n / suc d)
normalize_cents (negative n d) = err (lit "amount must be greater than zero")
normalize_cents _ = err (lit "amount must be a finite number")

abbrev pub normalize_optional_text : Option Text → Option Text
normalize_optional_text none = none
normalize_optional_text (some t) = if is_empty (trim t) then none else some (trim t)

abbrev pub has_key : Text → Option Text → Bool
has_key key none = false
has_key key (some k) = text_eq key k

-- The first event of the index whose idempotency key this is.
unfoldable pub find_by_key :
    {EventId : Type 0} → Text → List (EventId × UsageEvent) → Option (EventId × UsageEvent)
find_by_key key [] = none
find_by_key key ((id, e) ∷ es) =
    let rest = find_by_key key es in if has_key key e.idempotency_key then some (id, e) else rest

-- `===` on optional strings.
abbrev pub opt_text_eq : Option Text → Option Text → Bool
opt_text_eq none none = true
opt_text_eq (some a) (some b) = text_eq a b
opt_text_eq _ _ = false

abbrev pub existing_debit : {EventId : Type 0} → Option (EventId × UsageEvent) → ℕ
existing_debit none = 0
existing_debit (some (id, e)) = neg_part e.credits_delta_cents

-- The numbers of a debit up to a total, from the total, what was debited before, and the balance.
pub record Debit : Type 0 where
  pub applied_cents : ℤ
  pub next_debited_cents : ℤ
  pub balance_after_cents : ℤ
  pub next_delta_cents : ℤ

unfoldable pub plan_debit : ℕ → ℕ → ℤ → Debit
plan_debit target debited balance =
    let applied = min_ℤ (pos (target - debited)) balance in
    record {
      applied_cents = applied;
      next_debited_cents = pos debited +ℤ applied;
      balance_after_cents = balance -ℤ applied;
      next_delta_cents = pos 0 -ℤ (pos debited +ℤ applied);
    }

abbrev pub entry_event : ℕ → LedgerEntryArgs → Text → ℤ → ℤ → UsageEvent
entry_event now args user delta balance = record {
  user_id = user;
  event_type = args.event_type;
  credits_delta_cents = delta;
  balance_after_cents = balance;
  idempotency_key = normalize_optional_text args.idempotency_key;
  reference_type = normalize_optional_text args.reference_type;
  reference_id = normalize_optional_text args.reference_id;
  metadata = args.metadata;
  updated_at = now;
}

abbrev pub debit_event : ℕ → DebitTotalArgs → Text → Text → Debit → UsageEvent
debit_event now args user key d = record {
  user_id = user;
  event_type = args.event_type;
  credits_delta_cents = d.next_delta_cents;
  balance_after_cents = d.balance_after_cents;
  idempotency_key = some key;
  reference_type = normalize_optional_text args.reference_type;
  reference_id = normalize_optional_text args.reference_id;
  metadata = args.metadata;
  updated_at = now;
}

abbrev pub debit_patch : ℕ → DebitTotalArgs → Debit → EventPatch
debit_patch now args d = record {
  event_type = args.event_type;
  credits_delta_cents = d.next_delta_cents;
  balance_after_cents = d.balance_after_cents;
  reference_type = normalize_optional_text args.reference_type;
  reference_id = normalize_optional_text args.reference_id;
  metadata = args.metadata;
  updated_at = now;
}

-- The event of a debit has other values than those to be written.
abbrev pub debit_differs : DebitTotalArgs → Debit → UsageEvent → Bool
debit_differs args d e =
    not (eq_ℤ e.credits_delta_cents d.next_delta_cents)
    || not (eq_ℤ e.balance_after_cents d.balance_after_cents)
    || not (opt_text_eq e.reference_type (normalize_optional_text args.reference_type))
    || not (opt_text_eq e.reference_id (normalize_optional_text args.reference_id))
    || not (text_eq e.event_type args.event_type)

abbrev pub grant_entry : CreditEventArgs → Text → ℕ → LedgerEntryArgs
grant_entry args user amount = record {
  user_id = user;
  delta_cents = of_ℕ amount;
  event_type = args.event_type;
  idempotency_key = args.idempotency_key;
  reference_type = args.reference_type;
  reference_id = args.reference_id;
  metadata = args.metadata;
}

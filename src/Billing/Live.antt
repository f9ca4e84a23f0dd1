-- ===== src/Billing/Live.antt =====
-- The billing of a machine while it runs: `billLiveComputeSubject` of web/convex/cloud/billing.ts. The
-- stored amounts are finite numbers, and `now` is `Date.now()`.
pub mod Ticks
use tahuna_oss.Common.{
  ℕ, ◌-◌, Bool, true, false, not, ◌&&◌, ◌||◌, Option, none, some, List, [], ◌∷◌, ◌++◌, ltb, ◌==◌,
  if◌then◌else◌, get_or, is_some,
}
use tahuna_oss.Common.Int.{ℤ, pos, pos_part, ltb_ℤ, eq_ℤ, ◌-ℤ◌}
use tahuna_oss.Js.Text.{Text, lit}
use tahuna_oss.Js.Number.{Number, of_ℕ, floor_finite}
use tahuna_oss.Js.Json.{Json, Metadata}
use tahuna_oss.Mutation.{Result, ok, err, Mutation, ◌>>=◌, pure}
use tahuna_oss.Billing.Types.{BillingConfig, LedgerDb}
use tahuna_oss.Billing.Credits.{
  DebitTotalArgs, DebitTotalResult, opt_text_eq, upsert_ledger_debit_total,
}
use tahuna_oss.Billing.Pricing.{
  Fraction, Prices, estimate_run_usage_from_hourly_rate_cents, stored_cents,
  compute_session_reservation_remaining_cents,
}
use tahuna_oss.Billing.Settle.{
  ReferenceType, run, compute_session, reference_type_text, ComputeBillingSubject, usage_fields,
  compute_live_debit_event_type, compute_live_debit_idempotency_key, no_more_than,
  resolve_compute_subject_hourly_rate_cents,
}
use tahuna_oss.Billing.Reservations.{normalize_reservation_cents}

pub data LiveChargeStatus : Type 0 where
  pending charged owed : LiveChargeStatus

pub record PreviousBilling : Type 0 where
  pub compute_charge_cents : Option Number
  pub compute_collected_cents : Option Number
  pub compute_outstanding_cents : Option Number
  pub compute_charge_status : Option LiveChargeStatus
  pub compute_charge_error : Option Text
  pub compute_reservation_required_cents : Option Number
  pub compute_reservation_remaining_cents : Option Number

-- The reservation is a field of the patch only where the subject has one.
pub record LiveComputeBillingPatch : Type 0 where
  pub compute_charge_cents : ℕ
  pub compute_collected_cents : ℤ
  pub compute_outstanding_cents : ℕ
  pub compute_charge_status : LiveChargeStatus
  pub compute_charge_error : Option Text
  pub compute_reservation_remaining_cents : Option ℕ

pub data LiveComputeBillingResult : Type 0 where
  patched : LiveComputeBillingPatch → (charged owed : Bool) → LiveComputeBillingResult
  skipped : LiveComputeBillingResult
  owed_for_error : (error : Text) → LiveComputeBillingResult

abbrev pub same_status : LiveChargeStatus → LiveChargeStatus → Bool
same_status pending pending = true
same_status charged charged = true
same_status owed owed = true
same_status _ _ = false

-- `===` on optional numbers.
abbrev pub opt_ℕ_eq : Option ℕ → Option ℕ → Bool
opt_ℕ_eq none none = true
opt_ℕ_eq (some a) (some b) = a == b
opt_ℕ_eq _ _ = false

abbrev pub live_status : ℕ → ℕ → LiveChargeStatus
live_status target outstanding =
    if ltb 0 outstanding then owed else if ltb 0 target then charged else pending

abbrev pub live_error : ReferenceType → ℕ → Option Text
live_error reference_type outstanding =
    if ltb 0 outstanding
    then elim reference_type [
      | compute_session ↦ some (lit "insufficient credits")
      | run ↦ some (lit "outstanding compute settlement")
    ]
    else none

abbrev pub has_reservation : PreviousBilling → Bool
has_reservation previous =
    is_some (normalize_reservation_cents previous.compute_reservation_required_cents)
    || is_some (normalize_reservation_cents previous.compute_reservation_remaining_cents)

abbrev pub next_reservation : PreviousBilling → ℤ → Option ℕ
next_reservation previous collected =
    if has_reservation previous
    then some (
        compute_session_reservation_remaining_cents previous.compute_reservation_required_cents
          (some (of_ℕ (pos_part collected))))
    else none

unfoldable pub live_patch : ReferenceType → PreviousBilling → ℕ → ℤ → LiveComputeBillingPatch
live_patch reference_type previous target collected =
    let outstanding = pos_part (pos target -ℤ collected) in
    record {
      compute_charge_cents = target;
      compute_collected_cents = collected;
      compute_outstanding_cents = outstanding;
      compute_charge_status = live_status target outstanding;
      compute_charge_error = live_error reference_type outstanding;
      compute_reservation_remaining_cents = next_reservation previous collected;
    }

-- The patch would write what is stored.
unfoldable pub is_unchanged : PreviousBilling → LiveComputeBillingPatch → Bool
is_unchanged previous p =
    stored_cents previous.compute_charge_cents == p.compute_charge_cents
    && eq_ℤ (pos (stored_cents previous.compute_collected_cents)) p.compute_collected_cents
    && stored_cents previous.compute_outstanding_cents == p.compute_outstanding_cents
    && same_status (get_or previous.compute_charge_status pending) p.compute_charge_status
    && opt_text_eq previous.compute_charge_error p.compute_charge_error
    && (not (has_reservation previous)
        || opt_ℕ_eq (normalize_reservation_cents previous.compute_reservation_remaining_cents)
            p.compute_reservation_remaining_cents)

unfoldable pub live_result : ReferenceType → PreviousBilling → ℕ → ℤ → LiveComputeBillingResult
live_result reference_type previous target collected =
    let p = live_patch reference_type previous target collected in
    if is_unchanged previous p
    then skipped
    else patched p (ltb_ℤ (pos (stored_cents previous.compute_collected_cents)) collected)
        (ltb 0 p.compute_outstanding_cents)

abbrev pub live_debit : ComputeBillingSubject → ℕ → Number → Fraction → DebitTotalArgs
live_debit subject target duration rate = record {
  user_id = subject.user_id;
  target_debit_cents = target;
  event_type = compute_live_debit_event_type subject.reference_type;
  idempotency_key = compute_live_debit_idempotency_key subject.reference_type subject.reference_id;
  reference_type = some (reference_type_text subject.reference_type);
  reference_id = some subject.reference_id;
  metadata = some (
      ("settlement", some (Json.str (lit "live_tick")))
      ∷ ("charge_cents", some (Json.number (of_ℕ target)))
      ∷ usage_fields subject duration rate);
}

module _ {S CreditsId EventId : Type 0} (db : LedgerDb S CreditsId EventId) (config : BillingConfig)
    (prices : Prices) where
  abbrev pub live_debited :
      ComputeBillingSubject
      → PreviousBilling
      → ℕ
      → DebitTotalResult
      → Mutation S LiveComputeBillingResult
  live_debited subject previous target debited = pure (
      live_result subject.reference_type previous target
        (no_more_than target debited.debited_cents))

  unfoldable pub bill_at_rate :
      ℕ
      → ComputeBillingSubject
      → PreviousBilling
      → ℕ
      → Fraction
      → Mutation S LiveComputeBillingResult
  bill_at_rate now subject previous duration rate =
      let target = estimate_run_usage_from_hourly_rate_cents rate (some (of_ℕ duration)) in
      let collected = stored_cents previous.compute_collected_cents in
      if ltb collected target
      then upsert_ledger_debit_total db config now (live_debit subject target (of_ℕ duration) rate)
        >>= live_debited subject previous target
      else pure (live_result subject.reference_type previous target (pos collected))

  -- The rate is resolved in a `try` block.
  abbrev pub bill_resolved :
      ℕ
      → ComputeBillingSubject
      → PreviousBilling
      → ℕ
      → Result Fraction
      → Mutation S LiveComputeBillingResult
  bill_resolved now subject previous duration (err detail) = pure (owed_for_error detail)
  bill_resolved now subject previous duration (ok rate) =
      bill_at_rate now subject previous duration rate

  unfoldable pub bill_live_compute_subject :
      ℕ → ComputeBillingSubject → Number → PreviousBilling → Mutation S LiveComputeBillingResult
  bill_live_compute_subject now subject started_at previous =
      if floor_finite started_at == 0
      then pure skipped
      else bill_resolved now subject previous (now - floor_finite started_at)
          (resolve_compute_subject_hourly_rate_cents prices subject)

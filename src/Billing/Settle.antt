-- ===== src/Billing/Settle.antt =====
-- The settlement of a finished run or compute session, in web/convex/cloud/runBilling.ts. The stored
-- amounts are finite numbers. The key of the live debit is normalised once, by the ledger.
pub mod Outcome
use tahuna_oss.Common.{
  ℕ, zero, suc, ◌-◌, Bool, true, false, Option, none, some, List, [], ◌∷◌, ◌++◌, ltb, if◌then◌else◌,
}
use tahuna_oss.Common.Int.{ℤ, pos, pos_part, neg_part, ltb_ℤ, min_ℤ, ◌-ℤ◌}
use tahuna_oss.Js.Text.{Text, lit}
use tahuna_oss.Js.Number.{Number, finite, of_ℕ}
use tahuna_oss.Js.Json.{Json, Metadata, opt_text}
use tahuna_oss.Mutation.{Result, ok, err, Mutation, ◌>>=◌, ◌>>◌, pure, throw, lift}
use tahuna_oss.Billing.Types.{BillingConfig, LedgerDb}
use tahuna_oss.Billing.Credits.{
  CreditEventArgs, LedgerEntryArgs, LedgerEntryResult, DebitTotalArgs, DebitTotalResult,
  post_ledger_entry, grant_user_credits, upsert_ledger_debit_total,
}
use tahuna_oss.Billing.Pricing.{
  Fraction, Prices, stored_or_computed, to_optional_positive_number, resolve_run_compute_pricing,
  estimate_run_usage_from_hourly_rate_cents, stored_cents,
}

pub data ReferenceType : Type 0 where
  run compute_session : ReferenceType

unfoldable pub reference_type_text : ReferenceType → Text
unfolding lit
reference_type_text run = lit "run"
reference_type_text compute_session = lit "compute_session"

pub record ComputeBillingSubject : Type 0 where
  pub user_id : Text
  pub reference_type : ReferenceType
  pub reference_id : Text
  pub gpu_type : Option Text
  pub gpu_count : Option Number
  pub volume_gb : Option Number
  pub compute_hourly_rate_cents : Option Number
  pub compute_collected_cents : Option Number

-- The fields of a run or of a compute session that its settlement reads.
pub record Billed : Type 0 where
  pub billed_id : Text
  pub user_id : Text
  pub effective_gpu_type : Option Text
  pub effective_gpu_count : Option Number
  pub effective_volume_gb : Option Number
  pub compute_hourly_rate_cents : Option Number
  pub compute_collected_cents : Option Number

abbrev pub billing_subject : ReferenceType → Billed → ComputeBillingSubject
billing_subject reference_type billed = record {
  user_id = billed.user_id;
  reference_type = reference_type;
  reference_id = billed.billed_id;
  gpu_type = billed.effective_gpu_type;
  gpu_count = billed.effective_gpu_count;
  volume_gb = billed.effective_volume_gb;
  compute_hourly_rate_cents = billed.compute_hourly_rate_cents;
  compute_collected_cents = billed.compute_collected_cents;
}

pub data ChargeStatus : Type 0 where
  charged owed : ChargeStatus

pub record ComputeSettlementResult : Type 0 where
  pub charge_cents : ℕ
  pub charge_status : ChargeStatus
  pub charge_error : Option Text
  pub charge_delta_cents : ℤ
  pub balance_after_cents : Option ℤ
  pub collected_cents : ℤ
  pub outstanding_cents : ℕ
  pub duration_ms : Number
  pub hourly_rate_cents : Fraction

pub data SettlementKind : Type 0 where
  debit refund owed : SettlementKind

abbrev pub settlement_kind_text : SettlementKind → Text
settlement_kind_text debit = lit "debit"
settlement_kind_text refund = lit "refund"
settlement_kind_text SettlementKind.owed = lit "owed"

unfoldable pub compute_settlement_idempotency_key : ReferenceType → Text → SettlementKind → Text
compute_settlement_idempotency_key reference_type reference_id kind =
    reference_type_text reference_type
    ++ lit ":"
    ++ reference_id
    ++ lit ":settlement:"
    ++ settlement_kind_text kind

unfoldable pub compute_live_debit_idempotency_key : ReferenceType → Text → Text
compute_live_debit_idempotency_key reference_type reference_id =
    reference_type_text reference_type ++ lit ":" ++ reference_id ++ lit ":live_debit"

unfoldable pub compute_settlement_event_types : ReferenceType → SettlementKind → Text
compute_settlement_event_types run debit = lit "run_compute_settlement_debit"
compute_settlement_event_types run refund = lit "run_compute_settlement_refund"
compute_settlement_event_types run SettlementKind.owed = lit "run_compute_settlement_owed"
compute_settlement_event_types compute_session debit = lit "training_compute_settlement_debit"
compute_settlement_event_types compute_session refund = lit "training_compute_settlement_refund"
compute_settlement_event_types compute_session SettlementKind.owed =
    lit "training_compute_settlement_owed"

unfoldable pub compute_live_debit_event_type : ReferenceType → Text
compute_live_debit_event_type reference_type = compute_settlement_event_types reference_type debit

abbrev pub rate_message : ReferenceType → Text
rate_message reference_type = reference_type_text reference_type ++ lit " hourly rate is invalid"

unfoldable pub resolve_compute_subject_hourly_rate_cents :
    Prices → ComputeBillingSubject → Result Fraction
resolve_compute_subject_hourly_rate_cents prices subject =
    stored_or_computed (rate_message subject.reference_type)
      (to_optional_positive_number subject.compute_hourly_rate_cents)
      (resolve_run_compute_pricing prices (record {
        gpu_type = subject.gpu_type;
        gpu_count = subject.gpu_count;
        volume_gb = subject.volume_gb;
      }))

abbrev pub opt_number : Option Number → Option Json
opt_number none = none
opt_number (some x) = some (Json.number x)

abbrev number_of_ℤ : ℤ → Number
number_of_ℤ (pos n) = of_ℕ n
number_of_ℤ (ℤ.negsuc n) = Number.negative n 0

-- The fields of the metadata that follow the amounts.
abbrev pub usage_fields : ComputeBillingSubject → Number → Fraction → Metadata
usage_fields subject duration rate =
    ("duration_ms", some (Json.number duration))
    ∷ ("gpu_type", opt_text subject.gpu_type)
    ∷ ("gpu_count", opt_number subject.gpu_count)
    ∷ ("volume_gb", opt_number subject.volume_gb)
    ∷ ("hourly_rate_cents", some (Json.number (finite rate.numerator rate.below)))
    ∷ []

abbrev pub charge_fields : ℕ → Metadata
charge_fields charge =
    ("settlement", some (Json.str (lit "runtime_terminal")))
    ∷ ("charge_cents", some (Json.number (of_ℕ charge)))
    ∷ []

abbrev pub settlement_debit : ComputeBillingSubject → ℕ → Number → Fraction → DebitTotalArgs
settlement_debit subject charge duration rate = record {
  user_id = subject.user_id;
  target_debit_cents = charge;
  event_type = compute_settlement_event_types subject.reference_type debit;
  idempotency_key = compute_live_debit_idempotency_key subject.reference_type subject.reference_id;
  reference_type = some (reference_type_text subject.reference_type);
  reference_id = some subject.reference_id;
  metadata = some (charge_fields charge ++ usage_fields subject duration rate);
}

-- An entry of no amount, which says what the user still owes: `recordLedgerEvent`.
abbrev pub owed_entry : ComputeBillingSubject → ℕ → ℤ → ℕ → Number → Fraction → LedgerEntryArgs
owed_entry subject charge collected outstanding duration rate = record {
  user_id = subject.user_id;
  delta_cents = of_ℕ 0;
  event_type = compute_settlement_event_types subject.reference_type SettlementKind.owed;
  idempotency_key = some (
      compute_settlement_idempotency_key subject.reference_type subject.reference_id
        SettlementKind.owed);
  reference_type = some (reference_type_text subject.reference_type);
  reference_id = some subject.reference_id;
  metadata = some (
      charge_fields charge
      ++ ("collected_cents", some (Json.number (number_of_ℤ collected)))
        ∷ ("outstanding_cents", some (Json.number (of_ℕ outstanding)))
        ∷ usage_fields subject duration rate);
}

abbrev pub refund_grant : ComputeBillingSubject → ℕ → ℕ → Number → Fraction → CreditEventArgs
refund_grant subject charge refunded duration rate = record {
  user_id = subject.user_id;
  amount_cents = of_ℕ refunded;
  event_type = compute_settlement_event_types subject.reference_type refund;
  idempotency_key =
      some (compute_settlement_idempotency_key subject.reference_type subject.reference_id refund);
  reference_type = some (reference_type_text subject.reference_type);
  reference_id = some subject.reference_id;
  metadata = some (charge_fields charge ++ usage_fields subject duration rate);
}

-- The result of a charge that is paid in full.
abbrev pub paid : ℕ → ℤ → Option ℤ → ℤ → Number → Fraction → ComputeSettlementResult
paid charge delta balance collected duration rate = record {
  charge_cents = charge;
  charge_status = charged;
  charge_error = none;
  charge_delta_cents = delta;
  balance_after_cents = balance;
  collected_cents = collected;
  outstanding_cents = 0;
  duration_ms = duration;
  hourly_rate_cents = rate;
}

abbrev pub still_owed : ℕ → ℤ → ℤ → ℕ → Number → Fraction → ComputeSettlementResult
still_owed charge delta collected outstanding duration rate = record {
  charge_cents = charge;
  charge_status = ChargeStatus.owed;
  charge_error = some (lit "outstanding compute settlement");
  charge_delta_cents = delta;
  balance_after_cents = none;
  collected_cents = collected;
  outstanding_cents = outstanding;
  duration_ms = duration;
  hourly_rate_cents = rate;
}

abbrev pub no_more_than : ℕ → ℤ → ℤ
no_more_than charge debited = min_ℤ (pos charge) debited

module _ {S CreditsId EventId : Type 0} (db : LedgerDb S CreditsId EventId) (config : BillingConfig)
    (prices : Prices) where
  -- What follows the debit of a charge.
  unfoldable pub settle_debited :
      ℕ
      → ComputeBillingSubject
      → ℕ
      → ℤ
      → Number
      → Fraction
      → DebitTotalResult
      → Mutation S ComputeSettlementResult
  settle_debited now subject charge delta duration rate debited =
      let collected = no_more_than charge debited.debited_cents in
      let outstanding = pos_part (pos charge -ℤ collected) in
      if ltb 0 outstanding
      then post_ledger_entry db config now
          (owed_entry subject charge collected outstanding duration rate)
        >> pure (still_owed charge delta collected outstanding duration rate)
      else pure (paid charge delta (some debited.balance_cents) collected duration rate)

  abbrev pub settle_refunded :
      ℕ → ℤ → Number → Fraction → Option LedgerEntryResult → Mutation S ComputeSettlementResult
  settle_refunded charge delta duration rate none = throw (lit "refund grant failed unexpectedly")
  settle_refunded charge delta duration rate (some refunded) =
      pure (paid charge delta (some refunded.balance_cents) (pos charge) duration rate)

  -- A settlement, once its rate is known.
  unfoldable pub settle_at_rate :
      ℕ → ComputeBillingSubject → Number → Fraction → Mutation S ComputeSettlementResult
  settle_at_rate now subject duration rate =
      let charge = estimate_run_usage_from_hourly_rate_cents rate (some duration) in
      let collected = stored_cents subject.compute_collected_cents in
      let delta = pos charge -ℤ pos collected in
      if ltb collected charge
      then upsert_ledger_debit_total db config now (settlement_debit subject charge duration rate)
        >>= settle_debited now subject charge delta duration rate
      else if ltb charge collected
      then grant_user_credits db config now
          (refund_grant subject charge (collected - charge) duration rate)
        >>= settle_refunded charge delta duration rate
      else pure (paid charge (pos 0) none (pos charge) duration rate)

  unfoldable pub settle_compute_charge :
      ℕ → ComputeBillingSubject → Number → Mutation S ComputeSettlementResult
  settle_compute_charge now subject duration = do
    rate ← lift (resolve_compute_subject_hourly_rate_cents prices subject)
    settle_at_rate now subject duration rate

  unfoldable pub settle_run_compute_charge :
      ℕ → Billed → Number → Mutation S ComputeSettlementResult
  settle_run_compute_charge now billed = settle_compute_charge now (billing_subject run billed)

  unfoldable pub settle_compute_session_compute_charge :
      ℕ → Billed → Number → Mutation S ComputeSettlementResult
  settle_compute_session_compute_charge now billed =
      settle_compute_charge now (billing_subject compute_session billed)

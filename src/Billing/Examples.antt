-- ===== src/Billing/Examples.antt =====
-- Tests of the ledger and of what is paid from it.
mod Tables
mod Requests
mod Checkouts
use tahuna_oss.Common.{
  ℕ, ◌≡◌, ◌≤◌, ◌<◌, ◌*◌, ◌+◌, refl, Bool, true, false, not, Option, none, some, List, [], ◌∷◌,
  arith, All, get_or,
}
use tahuna_oss.Common.Int.{ℤ, pos, ◌+ℤ◌, ◌-ℤ◌, negsuc}
use tahuna_oss.Js.Text.{Text, lit, text_eq, is_empty, trim, trim_start, trim_end, is_space}
use tahuna_oss.Js.Number.{Number, of_ℕ}
use tahuna_oss.Mutation.{Result, ok, err, after}
use tahuna_oss.Billing.Types.{BillingConfig, LedgerDb}
use tahuna_oss.Billing.Credits.{
  CreditEventArgs, LedgerEntryArgs, DebitTotalArgs, normalize_user_id, normalize_cents,
  normalize_ledger_delta, upsert_ledger_debit_total, ensure_credits_row, grant_user_credits,
  post_ledger_entry, find_by_key, ensure_user_ledger, create_credits_row, debit_found, post_new,
  plan_debit,
}
use tahuna_oss.Billing.Ledger.{UserBalanced, Balanced, is_debit, balance_of}
use tahuna_oss.Billing.Ledger.Trace.{
  LedgerCommand, ensure, post, grant, debit, ledger_step, ledger_trace, KeepsKeys,
  ledger_trace-Balanced,
}
use tahuna_oss.Billing.Live.{PreviousBilling, live_result, bill_live_compute_subject}
use tahuna_oss.Billing.Live.Ticks.{bill_live_compute_subject-settle_compute_charge}
use tahuna_oss.Billing.Examples.Tables.{LedgerTables, Place, tables, no_rows}
use tahuna_oss.Billing.Credits.{LedgerEntryResult, DebitTotalResult}
use tahuna_oss.Billing.Ledger.Totals.{
  DebitDone, debited_under, funds, upsert_ledger_debit_total_lem,
}
use tahuna_oss.Billing.Ledger.Repeats.{post_ledger_entry_again}
use tahuna_oss.Billing.Pricing.{
  Fraction, whole, Prices, RunComputePricing, ms_per_hour,
  estimate_run_usage_from_hourly_rate_cents, resolve_run_compute_pricing,
}
use tahuna_oss.Billing.Pricing.Charges.{estimate_run_usage_from_hourly_rate_cents_of_hours}
use tahuna_oss.Js.Double.{round_double, bit_length, bit_length_from, round_div, ceil}
use tahuna_oss.Billing.Settle.{
  ReferenceType, ComputeBillingSubject, ComputeSettlementResult, settle_compute_charge,
  resolve_compute_subject_hourly_rate_cents,
}
use tahuna_oss.Billing.Settle.Outcome.{AddsUp, collected_of, settle_compute_charge_lem}
use tahuna_oss.Billing.Examples.Tables.{code_tables}

abbrev settings : BillingConfig
settings = record { initial_credit_cents = of_ℕ 500; currency = lit "usd" }

abbrev user : Text
user = lit "user_1"

abbrev debit_key : Text
debit_key = lit "run:1:live_debit"

abbrev is_debit_key : Text → Bool
is_debit_key key = text_eq key debit_key

abbrev debit_to : ℕ → DebitTotalArgs
debit_to target = record {
  user_id = user;
  target_debit_cents = target;
  event_type = lit "run_compute_settlement_debit";
  idempotency_key = debit_key;
  reference_type = none;
  reference_id = none;
  metadata = none;
}

abbrev gift : CreditEventArgs
gift = record {
  user_id = user;
  amount_cents = of_ℕ 200;
  event_type = lit "purchase";
  idempotency_key = some (lit "purchase_1");
  reference_type = none;
  reference_id = none;
  metadata = none;
}

abbrev day : List LedgerCommand
day =
    ensure 1 user (lit "signup")
    ∷ debit 2 (debit_to 300)
    ∷ grant 3 gift
    ∷ debit 4 (debit_to 900)
    ∷ []

abbrev end_of_day : LedgerTables
end_of_day = ledger_trace tables settings no_rows day

-- Of 300 and then 600 cents, the last debit takes what there is.
day_balance :
    tables.credits end_of_day user
    ≡ some (
      user,
      record { user_id = user; balance_cents = pos 0; currency = lit "usd"; updated_at = 4 },
    )
unfolding ledger_trace ledger_step normalize_user_id trim lit normalize_cents normalize_ledger_delta
    text_eq is_space trim_end trim_start upsert_ledger_debit_total ensure_credits_row
    grant_user_credits post_ledger_entry find_by_key ensure_user_ledger create_credits_row
    debit_found post_new plan_debit ◌+ℤ◌ ◌-ℤ◌
day_balance = refl

no_rows-Balanced : Balanced is_debit_key tables no_rows
no_rows-Balanced u = record { sums = refl; nonnegative = omega arith; taking = tt }

ledger_trace-Balanced_example :
    Balanced is_debit_key tables (ledger_trace tables settings no_rows day)
unfolding trim lit text_eq is_space trim_end trim_start
ledger_trace-Balanced_example =
    ledger_trace-Balanced is_debit_key tables settings no_rows day (tt, (refl, (refl, (refl, tt))))
      no_rows-Balanced

upsert_ledger_debit_total_lem_example :
    (r : DebitTotalResult) × (t : LedgerTables) × (upsert_ledger_debit_total tables settings 2
        (debit_to 300)
        no_rows
      ≡ ok (r, t))
    × DebitDone tables settings 300
        (debited_under tables settings user debit_key no_rows)
        (funds tables settings user no_rows)
        user
        debit_key
        r
        t
unfolding normalize_user_id trim lit is_space trim_end trim_start
upsert_ledger_debit_total_lem_example =
    upsert_ledger_debit_total_lem is_debit_key tables settings no_rows 2 (debit_to 300) user
      debit_key refl refl refl no_rows-Balanced

abbrev entry : LedgerEntryArgs
entry = record {
  user_id = user;
  delta_cents = of_ℕ 200;
  event_type = lit "purchase";
  idempotency_key = some (lit "purchase_1");
  reference_type = none;
  reference_id = none;
  metadata = none;
}

abbrev entry_made : LedgerEntryResult
entry_made = record { balance_cents = pos 700; applied = true; delta_cents = pos 200 }

abbrev after_entry : LedgerTables
after_entry = after (post_ledger_entry tables settings 5 entry no_rows) no_rows

post_ledger_entry_again_example :
    post_ledger_entry tables settings 6 entry after_entry
    ≡ ok (some (record entry_made { applied = false }), after_entry)
unfolding normalize_user_id normalize_ledger_delta trim lit is_space trim_end trim_start
    post_ledger_entry ensure_credits_row create_credits_row post_new find_by_key text_eq ◌+ℤ◌
post_ledger_entry_again_example =
    post_ledger_entry_again tables settings no_rows after_entry 5 6 entry entry user
      (lit "purchase_1") (pos 200) (pos 200) entry_made refl refl refl refl refl refl refl

-- 2.5 cents an hour.
abbrev rate : Fraction
rate = record { numerator = 5; below = 1 }

estimate_run_usage_from_hourly_rate_cents_of_hours_example :
    estimate_run_usage_from_hourly_rate_cents (whole 250) (some (of_ℕ (7 * ms_per_hour))) ≡ 1750
estimate_run_usage_from_hourly_rate_cents_of_hours_example =
    estimate_run_usage_from_hourly_rate_cents_of_hours 250 7 (omega arith)

-- At 8.4 cents an hour, the nearest double of which is a little more, five hours cost 42 cents, since
-- the product is rounded.
five_hours :
    estimate_run_usage_from_hourly_rate_cents
      (round_double (record { numerator = 84; below = 9 }))
      (some (of_ℕ 18000000))
    ≡ 42
unfolding estimate_run_usage_from_hourly_rate_cents round_double bit_length bit_length_from
    round_div ceil
five_hours = refl

abbrev prices : Prices
prices = record {
  is_aws = false;
  aws_instance_price = λ instance. err (lit "unknown");
  runpod_gpu_price_cents = λ gpu. some (record { numerator = 40; below = 0 });
  aws_volume_gb_monthly_price = err (lit "unset");
  compute_price_markup_multiplier = record { numerator = 6; below = 4 };
}

abbrev subject : ComputeBillingSubject
subject = record {
  user_id = user;
  reference_type = ReferenceType.run;
  reference_id = lit "1";
  gpu_type = some (lit "a100");
  gpu_count = some (of_ℕ 1);
  volume_gb = some (of_ℕ 10);
  compute_hourly_rate_cents = some (Number.finite 5 1);
  compute_collected_cents = none;
}

settle_compute_charge_lem_example :
    let charge = estimate_run_usage_from_hourly_rate_cents rate (some (of_ℕ 900000000)) in
    (r : ComputeSettlementResult) × (t : LedgerTables) × (settle_compute_charge tables settings
        prices 9 subject
        (of_ℕ 900000000)
        no_rows
      ≡ ok (r, t))
    × AddsUp charge r
    × (r.collected_cents ≡ pos (collected_of tables settings prices subject user charge no_rows))
unfolding normalize_user_id trim lit is_space trim_end trim_start
    resolve_compute_subject_hourly_rate_cents
settle_compute_charge_lem_example =
    settle_compute_charge_lem tables settings prices is_debit_key no_rows 9 subject user
      (of_ℕ 900000000) rate refl refl no_rows-Balanced

abbrev nothing_billed : PreviousBilling
nothing_billed = record {
  compute_charge_cents = none;
  compute_collected_cents = none;
  compute_outstanding_cents = none;
  compute_charge_status = none;
  compute_charge_error = none;
  compute_reservation_required_cents = none;
  compute_reservation_remaining_cents = none;
}

bill_live_compute_subject-settle_compute_charge_example :
    (r : ComputeSettlementResult) × (t : LedgerTables) × (t' : LedgerTables)
    × (settle_compute_charge tables settings prices 900001000 subject (of_ℕ 900000000) no_rows
        ≡ ok (r, t))
    × (bill_live_compute_subject tables settings prices 900001000 subject
          (of_ℕ 1000)
          nothing_billed
          no_rows
        ≡ ok (live_result ReferenceType.run nothing_billed r.charge_cents r.collected_cents, t'))
unfolding normalize_user_id trim lit is_space trim_end trim_start
    resolve_compute_subject_hourly_rate_cents
bill_live_compute_subject-settle_compute_charge_example =
    bill_live_compute_subject-settle_compute_charge tables settings prices is_debit_key no_rows
      900001000 subject (of_ℕ 1000) nothing_billed user rate (omega arith) refl refl
      no_rows-Balanced refl (omega arith)

-- ===== src/Billing/Examples/Requests.antt =====
-- Tests of the redemption of codes and of the check before a launch.
use tahuna_oss.Common.{
  ◌+◌, ◌≡◌, refl, true, false, ◌||◌, none, some, List, [], ◌∷◌, leb, ◌==◌, if◌then◌else◌,
}
use tahuna_oss.Common.Int.{pos, pos_part, ◌+ℤ◌}
use tahuna_oss.Js.Text.{Text, lit, text_eq, trim, trim_start, trim_end, is_space}
use tahuna_oss.Js.Double.{round_double}
use tahuna_oss.Js.Number.{of_ℕ}
use tahuna_oss.Mutation.{err, after}
use tahuna_oss.Session.Types.{SessionStatus}
use tahuna_oss.Billing.Types.{BillingConfig}
use tahuna_oss.Billing.Credits.{
  normalize_user_id, normalize_cents, normalize_ledger_delta, grant_user_credits, post_ledger_entry,
  ensure_credits_row, create_credits_row, post_new, find_by_key,
}
use tahuna_oss.Billing.CodeArgs.{CodeRow, promo, CodeSettings, RedeemResult, normalize_code}
use tahuna_oss.Billing.Codes.{redeem_code, redeem_row}
use tahuna_oss.Billing.Codes.Redemptions.{Redeems, redeem_code-Redeems, redeem_code_again}
use tahuna_oss.Billing.Pricing.{
  Prices, RunComputePricing, resolve_run_compute_pricing, gpu_unit_hourly_rate_cents,
  volume_gb_monthly_rate_cents,
}
use tahuna_oss.Billing.Reservations.{
  ReservationRow, SessionCreateArgs, required_of, validate_hosted_compute_session_create,
}
use tahuna_oss.Billing.Reservations.Launch.{
  Decides, active, validate_hosted_compute_session_create_lem,
}
use tahuna_oss.Billing.Ledger.Totals.{funds}
use tahuna_oss.Billing.Examples.Tables.{LedgerTables, tables, code_tables, no_rows}

abbrev settings : BillingConfig
settings = record { initial_credit_cents = of_ℕ 500; currency = lit "usd" }

abbrev user : Text
user = lit "user_1"

abbrev ascii : CodeSettings
ascii = record {
  to_upper_case = λ t. t;
  to_lower_case = λ t. t;
  local_time = λ date. date.year;
  authorized_creator_emails = [];
}

abbrev offer : CodeRow
offer = record {
  code = lit "SPRING";
  kind = promo;
  amount_cents = 1000;
  currency = lit "usd";
  max_redemptions = 5;
  redemption_count = 2;
  active = true;
  created_by = lit "team";
  expires_at = 900;
  updated_at = 1;
}

abbrev offers : LedgerTables
offers = record no_rows { codes = λ code. if text_eq code (lit "SPRING") then some offer else none }

abbrev redeemed_offer : LedgerTables
redeemed_offer =
    after (redeem_code ascii code_tables settings 100 user (lit "SPRING ") offers) offers

abbrev receipt : RedeemResult
receipt = record { balance_cents = pos 1500; currency = lit "usd"; amount_cents_granted = 1000 }

redeem_code-Redeems_example :
    (id : Text) × (row : CodeRow) × (code_tables.code_by_code offers (lit "SPRING")
      ≡ some (id, row))
    × Redeems ascii code_tables settings 100 user user (lit "SPRING") id row redeemed_offer
unfolding normalize_code redeem_code redeem_row normalize_user_id normalize_cents
    normalize_ledger_delta grant_user_credits post_ledger_entry ensure_credits_row
    create_credits_row post_new find_by_key text_eq lit trim trim_start trim_end is_space ◌+ℤ◌
redeem_code-Redeems_example =
    redeem_code-Redeems ascii code_tables settings offers redeemed_offer 100 user user
      (lit "SPRING ") (lit "SPRING") receipt refl refl refl

redeem_code_again_example :
    (e : Text) × (redeem_code ascii code_tables settings 101 user (lit "SPRING ") redeemed_offer
      ≡ err e)
unfolding normalize_code redeem_code redeem_row normalize_user_id normalize_cents
    normalize_ledger_delta grant_user_credits post_ledger_entry ensure_credits_row
    create_credits_row post_new find_by_key text_eq lit trim trim_start trim_end is_space ◌+ℤ◌
redeem_code_again_example =
    redeem_code_again ascii code_tables settings offers redeemed_offer 100 101 user user
      (lit "SPRING ") (lit "SPRING") receipt refl refl refl

abbrev prices : Prices
prices = record {
  is_aws = false;
  aws_instance_price = λ instance. err (lit "unknown");
  runpod_gpu_price_cents = λ gpu. some (record { numerator = 40; below = 0 });
  aws_volume_gb_monthly_price = err (lit "unset");
  compute_price_markup_multiplier = record { numerator = 6; below = 4 };
}

abbrev launch : SessionCreateArgs
launch = record {
  user_id = user;
  gpu_type = lit "a100";
  gpu_count = of_ℕ 2;
  volume_gb = of_ℕ 0;
  launch_kind = none;
}

-- One session of each active status, each with 100 cents to go.
abbrev sessions : LedgerTables → Text → SessionStatus → List ReservationRow
sessions s u status =
    record {
      compute_reservation_remaining_cents = some (of_ℕ 100);
      compute_reservation_required_cents = none;
      compute_collected_cents = none;
    }
    ∷ []

abbrev eighty : RunComputePricing
eighty = record {
  gpu_count = record { numerator = 2; below = 0 };
  volume_gb = record { numerator = 0; below = 0 };
  gpu_unit_hourly_rate_cents = record { numerator = 40; below = 0 };
  gpu_hourly_rate_cents = record { numerator = 80; below = 0 };
  volume_hourly_rate_cents = record { numerator = 0; below = 0 };
  hourly_rate_cents = record { numerator = 80; below = 0 };
}

validate_hosted_compute_session_create_lem_example :
    let required = required_of tables settings prices sessions eighty in
    Decides
      (required == 0
        || leb
            (active tables settings prices sessions user no_rows + required)
            (pos_part (funds tables settings user no_rows)))
      (validate_hosted_compute_session_create tables settings prices sessions 7 launch no_rows)
unfolding normalize_user_id trim lit trim_start trim_end is_space resolve_run_compute_pricing
    gpu_unit_hourly_rate_cents volume_gb_monthly_rate_cents round_double
validate_hosted_compute_session_create_lem_example =
    validate_hosted_compute_session_create_lem tables settings prices sessions (λ s r u t. refl)
      (λ s i p u t. refl) (λ s e u t. refl) no_rows 7 launch user eighty refl refl

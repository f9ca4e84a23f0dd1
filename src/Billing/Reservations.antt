-- ===== src/Billing/Reservations.antt =====
-- The check of the credits before a compute session is created,
-- web/convex/cloud/computeSessionReservations.ts.
pub mod Launch
use tahuna_oss.Common.{
  ℕ, suc, ◌+◌, ◌-◌, ◌*◌, ◌/◌, ◌%◌, ◌≤◌, ◌<◌, ◌≡◌, ◌⊎◌, refl, sym, ap, ◌∙◌, inl, inr, Bool, true,
  false, Option, none, some, List, [], ◌∷◌, ◌++◌, ltb, ◌==◌, arith, Bool-cases, if◌then◌else◌,
  get_or,
}
use tahuna_oss.Common.Int.{ℤ, pos, pos_part}
use tahuna_oss.Js.Text.{Text, lit, decimal}
use tahuna_oss.Js.Number.{Number, finite, negative}
use tahuna_oss.Mutation.{Result, ok, err, Mutation, ◌>>=◌, ◌>>◌, throw_if, gets, lift, bind-ok}
use tahuna_oss.Session.Types.{SessionStatus, provisioning, running, terminating}
use tahuna_oss.Billing.Types.{BillingConfig, CreditsRow, UsageEvent, LedgerDb}
use tahuna_oss.Billing.Credits.{normalize_user_id, ensure_credits_row, ensure_user_ledger}
use tahuna_oss.Billing.Pricing.{
  Fraction, Prices, PricingArgs, RunComputePricing, resolve_run_compute_pricing,
  compute_session_required_reservation_cents, compute_session_reservation_remaining_cents,
  compute_available_balance_cents,
}

pub record ReservationRow : Type 0 where
  pub compute_reservation_remaining_cents : Option Number
  pub compute_reservation_required_cents : Option Number
  pub compute_collected_cents : Option Number

pub data LaunchKind : Type 0 where
  run serve : LaunchKind

pub record SessionCreateArgs : Type 0 where
  pub user_id : Text
  pub gpu_type : Text
  pub gpu_count : Number
  pub volume_gb : Number
  pub launch_kind : Option LaunchKind

abbrev pub active_compute_reservation_statuses : List SessionStatus
active_compute_reservation_statuses = provisioning ∷ SessionStatus.idle ∷ running ∷ terminating ∷ []

abbrev two_decimals : ℕ → Text
two_decimals n = (48 + n / 10 % 10) ∷ (48 + n % 10) ∷ []

unfoldable pub format_usd_cents : ℕ → Text
format_usd_cents cents = lit "$" ++ decimal (cents / 100) ++ lit "." ++ two_decimals cents

abbrev pub normalize_reservation_cents : Option Number → Option ℕ
normalize_reservation_cents (some (finite n d)) = some (n / suc d)
normalize_reservation_cents (some (negative n d)) = some 0
normalize_reservation_cents _ = none

abbrev pub remaining_of : ReservationRow → ℕ
remaining_of row = get_or (normalize_reservation_cents row.compute_reservation_remaining_cents) (
    compute_session_reservation_remaining_cents row.compute_reservation_required_cents
      row.compute_collected_cents)

unfoldable pub sum_remaining : List ReservationRow → ℕ
sum_remaining [] = 0
sum_remaining (row ∷ rows) = remaining_of row + sum_remaining rows

abbrev launch_kind_text : Option LaunchKind → Text
launch_kind_text (some serve) = lit "serve"
launch_kind_text _ = lit "run"

abbrev insufficient_credits : ℕ → Option LaunchKind → Text
insufficient_credits missing kind =
    lit "insufficient credits: add at least "
    ++ format_usd_cents missing
    ++ lit " before launching this "
    ++ launch_kind_text kind

-- `sessions` is the index of compute sessions by user and status.
module _ {S CreditsId EventId : Type 0} (db : LedgerDb S CreditsId EventId) (config : BillingConfig)
    (prices : Prices) (sessions : S → Text → SessionStatus → List ReservationRow) where
  abbrev pub rows_of : S → Text → List SessionStatus → List ReservationRow
  rows_of s user [] = []
  rows_of s user (status ∷ rest) = sessions s user status ++ rows_of s user rest

  unfoldable pub sum_active_compute_session_reservation_cents : Text → S → ℕ
  sum_active_compute_session_reservation_cents user s =
      sum_remaining (rows_of s user active_compute_reservation_statuses)

  abbrev pub check_available :
      ℕ → SessionCreateArgs → CreditsId × CreditsRow → ℕ → Mutation S (Unit {0})
  check_available required args (id, row) active =
      let available = compute_available_balance_cents row.balance_cents active in
      throw_if (ltb available required)
        (insufficient_credits (required - available) args.launch_kind)

  abbrev pub require_reservation : ℕ → SessionCreateArgs → ℕ → Mutation S (Unit {0})
  require_reservation now args required = do
    credits ← ensure_user_ledger db config now args.user_id (lit "compute_session_launch")
    active ← gets (sum_active_compute_session_reservation_cents args.user_id)
    check_available required args credits active

  abbrev pub required_of : RunComputePricing → ℕ
  required_of pricing =
      compute_session_required_reservation_cents
        (some (finite pricing.hourly_rate_cents.numerator pricing.hourly_rate_cents.below))

  abbrev pub validate_priced : ℕ → SessionCreateArgs → RunComputePricing → Mutation S (Unit {0})
  validate_priced now args pricing s =
      if required_of pricing == 0
      then ok (tt, s)
      else require_reservation now args (required_of pricing) s

  abbrev pub pricing_args : SessionCreateArgs → PricingArgs
  pricing_args args = record {
    gpu_type = some args.gpu_type;
    gpu_count = some args.gpu_count;
    volume_gb = some args.volume_gb;
  }

  unfoldable pub validate_hosted_compute_session_create :
      ℕ → SessionCreateArgs → Mutation S (Unit {0})
  validate_hosted_compute_session_create now args = do
    pricing ← lift (resolve_run_compute_pricing prices (pricing_args args))
    validate_priced now args pricing

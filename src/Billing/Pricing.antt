-- ===== src/Billing/Pricing.antt =====
-- The price of a usage: web/cloud/billing/run-compute-pricing.ts, and the pure functions of
-- web/convex/cloud/runBilling.ts. Rates and quantities are
-- fractions, rounded to doubles by every operation. The tables of prices of
-- the providers, and what they read from the environment, are parameters.
pub mod Charges
use tahuna_oss.Common.{
  ℕ, zero, suc, ◌+◌, ◌-◌, ◌*◌, ◌/◌, max, Bool, true, false, ◌&&◌, ◌||◌, Option, none, some, ltb,
  ◌==◌, if◌then◌else◌, List, [], ◌∷◌, ◌++◌,
}
use tahuna_oss.Common.Int.{ℤ, pos_part}
use tahuna_oss.Js.Text.{Text, lit, trim, is_empty}
pub use tahuna_oss.Js.Double.{Fraction, whole, is_positive}
use tahuna_oss.Js.Double.{ceil, ◌times◌, ◌plus◌, ◌over◌}
use tahuna_oss.Js.Number.{Number, finite, negative, floor_finite}
use tahuna_oss.Mutation.{Result, ok, err, and_then}

-- `resolveComputeProviderName() === "aws"`, `resolveAwsInstancePrice`, `getRunpodGpuPricePerHourCents`,
-- `resolveAwsVolumeGbMonthlyPrice` and the markup of `CLOUD_BILLING_CONFIG`.
pub record Prices : Type 0 where
  pub is_aws : Bool
  pub aws_instance_price : Text → Result Fraction
  pub runpod_gpu_price_cents : Text → Option Fraction
  pub aws_volume_gb_monthly_price : Result Fraction
  pub compute_price_markup_multiplier : Fraction

pub record PricingArgs : Type 0 where
  pub gpu_type : Option Text
  pub gpu_count : Option Number
  pub volume_gb : Option Number

pub record RunComputePricing : Type 0 where
  pub gpu_count : Fraction
  pub volume_gb : Fraction
  pub gpu_unit_hourly_rate_cents : Fraction
  pub gpu_hourly_rate_cents : Fraction
  pub volume_hourly_rate_cents : Fraction
  pub hourly_rate_cents : Fraction

abbrev pub safe_positive_number : Option Number → Fraction
safe_positive_number (some (finite n d)) = record { numerator = n; below = d }
safe_positive_number _ = whole 0

-- `args.gpuType?.trim() || fallback`
abbrev pub trimmed_or : Option Text → Text → Text
trimmed_or none fallback = fallback
trimmed_or (some t) fallback = if is_empty (trim t) then fallback else trim t

abbrev pub or_empty : Option Text → Text
or_empty none = []
or_empty (some t) = t

abbrev pub get_aws_gpu_price_per_hour : Prices → Text → Fraction → Result Fraction
get_aws_gpu_price_per_hour prices instance gpu_count =
    and_then (prices.aws_instance_price instance)
      λ price. ok (price times prices.compute_price_markup_multiplier over gpu_count)

abbrev pub lookup_gpu_unit_hourly_rate_cents :
    Prices → PricingArgs → Fraction → Result (Option Fraction)
lookup_gpu_unit_hourly_rate_cents prices args gpu_count =
    if prices.is_aws && is_positive gpu_count
    then and_then (get_aws_gpu_price_per_hour prices (trimmed_or args.gpu_type []) gpu_count)
        (λ price. ok (some (price times whole 100)))
    else ok (prices.runpod_gpu_price_cents (or_empty args.gpu_type))

abbrev pub require_rate : Text → Option Fraction → Result Fraction
require_rate gpu none = err (lit "gpu pricing not configured for GPU type: " ++ gpu)
require_rate gpu (some rate) = ok rate

unfoldable pub gpu_unit_hourly_rate_cents : Prices → PricingArgs → Fraction → Result Fraction
gpu_unit_hourly_rate_cents prices args gpu_count =
    and_then (lookup_gpu_unit_hourly_rate_cents prices args gpu_count) λ rate.
      if is_positive gpu_count
      then require_rate (trimmed_or args.gpu_type (lit "(empty)")) rate
      else ok (whole 0)

unfoldable pub volume_gb_monthly_rate_cents : Prices → Result Fraction
volume_gb_monthly_rate_cents prices =
    if prices.is_aws
    then and_then prices.aws_volume_gb_monthly_price
        (λ price. ok (price times whole 100 times prices.compute_price_markup_multiplier))
    else ok (whole 12)

abbrev pub hours_per_month : ℕ
hours_per_month = 730

unfoldable pub resolve_run_compute_pricing : Prices → PricingArgs → Result RunComputePricing
resolve_run_compute_pricing prices args =
    let gpu_count = safe_positive_number args.gpu_count in
    let volume_gb = safe_positive_number args.volume_gb in
    and_then (gpu_unit_hourly_rate_cents prices args gpu_count) λ unit_rate.
      and_then (volume_gb_monthly_rate_cents prices) λ monthly_rate.
        let gpu_rate = gpu_count times unit_rate in
        let volume_rate = volume_gb times monthly_rate over whole hours_per_month in
        ok (record {
          gpu_count = gpu_count;
          volume_gb = volume_gb;
          gpu_unit_hourly_rate_cents = unit_rate;
          gpu_hourly_rate_cents = gpu_rate;
          volume_hourly_rate_cents = volume_rate;
          hourly_rate_cents = gpu_rate plus volume_rate;
        })

abbrev pub minimum_charge_cents : ℕ
minimum_charge_cents = 1

abbrev pub ms_per_minute : ℕ
ms_per_minute = 60000

abbrev pub ms_per_hour : ℕ
ms_per_hour = 3600000

abbrev pub to_optional_unix_millis : Option Number → Option ℕ
to_optional_unix_millis (some (finite n d)) = some (n / suc d)
to_optional_unix_millis (some (negative n d)) = some 0
to_optional_unix_millis _ = none

abbrev pub to_optional_positive_number : Option Number → Option Fraction
to_optional_positive_number (some (finite n d)) = some (record { numerator = n; below = d })
to_optional_positive_number (some (negative n d)) = some (whole 0)
to_optional_positive_number _ = none

abbrev pub to_minute_bucket_unix_ms : Number → ℕ
to_minute_bucket_unix_ms value = floor_finite value / ms_per_minute * ms_per_minute

abbrev pub usage_cents : Fraction → Option ℕ → ℕ
usage_cents rate none = 0
usage_cents rate (some duration) =
    if rate.numerator == 0 || duration == 0
    then 0
    else max minimum_charge_cents (ceil (rate times whole duration over whole ms_per_hour))

unfoldable pub estimate_run_usage_from_hourly_rate_cents : Fraction → Option Number → ℕ
estimate_run_usage_from_hourly_rate_cents rate duration =
    usage_cents rate (to_optional_unix_millis duration)

abbrev pub required_of_rate : Option Fraction → ℕ
required_of_rate none = 0
required_of_rate (some rate) =
    if rate.numerator == 0 then 0 else max minimum_charge_cents (ceil rate)

unfoldable pub compute_session_required_reservation_cents : Option Number → ℕ
compute_session_required_reservation_cents rate =
    required_of_rate (to_optional_positive_number rate)

-- `Math.max(0, Math.floor(x || 0))` of a stored amount, which is finite or missing.
abbrev pub stored_cents : Option Number → ℕ
stored_cents none = 0
stored_cents (some x) = floor_finite x

unfoldable pub compute_session_reservation_remaining_cents : Option Number → Option Number → ℕ
compute_session_reservation_remaining_cents required collected =
    stored_cents required - stored_cents collected

unfoldable pub compute_available_balance_cents : ℤ → ℕ → ℕ
compute_available_balance_cents ledger_balance active = pos_part ledger_balance - active

abbrev pub stored_or_computed : Text → Option Fraction → Result RunComputePricing → Result Fraction
stored_or_computed message stored computed =
    let resolved = and_then computed (λ pricing.
      if is_positive pricing.hourly_rate_cents
      then ok pricing.hourly_rate_cents
      else err message) in
    elim stored [ none ↦ resolved | some rate ↦ if is_positive rate then ok rate else resolved ]

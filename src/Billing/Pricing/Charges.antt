-- ===== src/Billing/Pricing/Charges.antt =====
-- What a usage costs: `estimateRunUsageFromHourlyRateCents` and the reservation of a compute session,
-- in web/convex/cloud/runBilling.ts.
use tahuna_oss.Common.{
  zero, max, ◌≤◌, false, ℕ, suc, ◌*◌, ◌/◌, ◌%◌, ◌^◌, ◌<◌, ◌≡◌, refl, inl, inr, true, some, ltb, sym,
  ◌||◌, ◌==◌, arith, Bool-cases,
}
use native.Mathlib.Nat.{mul_assoc, one-le-mul, mul-mod_left, mul-div_cancel}
use tahuna_oss.Js.Double.{ceil, whole, round_double, ◌times◌, ◌over◌}
use tahuna_oss.Js.Number.{of_ℕ}
use tahuna_oss.Billing.Pricing.{ms_per_hour, estimate_run_usage_from_hourly_rate_cents}

round_double_of_multiple :
    (n d q : ℕ)
    → n ≡ q * suc d
    → q < 2 ^ 53
    → round_double (record { numerator = n; below = d }) ≡ whole q
unfolding round_double
round_double_of_multiple n d q e h =
    let rest : n % suc d ≡ 0 = rw e (mul-mod_left q (suc d)) in
    let same : n / suc d ≡ q = rw e (mul-div_cancel q (omega arith)) in
    let small : ltb q (2 ^ 53) ≡ true = ground arith in rw (rest, same, small) refl

-- The price of some hours at a whole rate, before it is rounded up.
hours_price :
    (w k : ℕ)
    → w * (k * 3600000) < 2 ^ 53
    → (whole w times whole (k * 3600000) over whole ms_per_hour) ≡ whole (w * k)
hours_price w k h =
    let regroup : w * (k * 3600000) ≡ w * k * 3600000 = sym (mul_assoc w k 3600000) in
    rw
      (
        round_double_of_multiple (w * (k * 3600000)) 0 (w * (k * 3600000)) (omega arith) h,
        round_double_of_multiple (w * (k * 3600000) * 1) 3599999 (w * k) (omega arith)
            (omega arith),
      )
      refl

ceil_of_whole : (n : ℕ) → ceil (whole n) ≡ n
unfolding ceil
ceil_of_whole n = omega arith

no_price : (w k : ℕ) → (w == 0 || k * 3600000 == 0) ≡ true → 0 ≡ w * k
no_price zero k h = omega arith
no_price (suc w) zero h = omega arith
no_price (suc w) (suc k) h = ground arith

some_price : (w k : ℕ) → (w == 0 || k * 3600000 == 0) ≡ false → max 1 (w * k) ≡ w * k
some_price zero k h = cc
some_price (suc w) zero h = ground arith
some_price (suc w) (suc k) h =
    let one : 1 ≤ suc w * suc k = one-le-mul (omega arith) (omega arith) in omega arith

-- A usage of some whole hours at a whole rate costs the rate times the hours, for a rate whose
-- product with the milliseconds of the usage is below 2 ^ 53.
pub estimate_run_usage_from_hourly_rate_cents_of_hours :
    (rate hours : ℕ)
    → rate * (hours * ms_per_hour) < 2 ^ 53
    → estimate_run_usage_from_hourly_rate_cents (whole rate) (some (of_ℕ (hours * ms_per_hour)))
      ≡ rate * hours
unfolding estimate_run_usage_from_hourly_rate_cents
estimate_run_usage_from_hourly_rate_cents_of_hours rate hours h =
    let same : hours * 3600000 / 1 ≡ hours * 3600000 = omega arith in
    let price = hours_price rate hours h in
    let cents = ceil_of_whole (rate * hours) in
    elim (Bool-cases (rate == 0 || hours * 3600000 == 0)) [
      | inl z ↦ rw (same, z) (no_price rate hours z)
      | inr p ↦ rw (same, p, price, cents) (some_price rate hours p)
    ]

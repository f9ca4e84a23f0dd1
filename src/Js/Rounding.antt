-- ===== src/Js/Rounding.antt =====
-- Theorems on the rounding of doubles in Js.Double.
use tahuna_oss.Common.{
  ℕ, zero, suc, ◌+◌, ◌*◌, ◌/◌, ◌%◌, ◌^◌, ◌≤◌, ◌<◌, ◌≡◌, sym, ◌||◌, ◌&&◌, inl, inr, ltb, ◌==◌, arith,
  Bool-cases,
}
use native.Mathlib.Nat.{div-add-mod', pow-succ'}
use tahuna_oss.Js.Double.{bit_length_from, bit_length, round_div}

bit_length_from_bound : (fuel n : ℕ) → n ≤ fuel → n < 2 ^ bit_length_from fuel n
unfolding bit_length_from
bit_length_from_bound zero n h = omega arith
bit_length_from_bound (suc fuel) zero h = omega arith
bit_length_from_bound (suc fuel) (suc n) h =
    let half = bit_length_from_bound fuel (suc n / 2) (omega arith) in
    let digits = bit_length_from fuel (suc n / 2) in
    let double : 2 ^ suc digits ≡ 2 * 2 ^ digits = pow-succ' 2 digits in omega arith

-- The fuel of the number of binary digits is enough: no digit is left out.
pub bit_length_bound : (n : ℕ) → n < 2 ^ bit_length n
unfolding bit_length
bit_length_bound n = bit_length_from_bound n n (omega arith)

-- The rounded quotient is at most a half away from the exact one.
pub round_div_near :
    (n d : ℕ)
    → zero < d
    → (2 * n ≤ 2 * (round_div n d * d) + d) × (2 * (round_div n d * d) ≤ 2 * n + d)
unfolding round_div
round_div_near n d h =
    let parts : n ≡ n / d * d + n % d = sym (div-add-mod' n d) in
    elim (Bool-cases (ltb d (2 * (n % d)) || 2 * (n % d) == d && n / d % 2 == 1)) [
      | inl up ↦ rw up (ground arith)
      | inr down ↦ rw down (ground arith)
    ]

-- ===== src/Js/Double.antt =====
-- The arithmetic of the numbers: an operation on doubles is the exact one, rounded to the nearest
-- double, to the even one of two that are equally near. Of the doubles, the bounds of the exponent
-- are not modelled: there is no overflow and there are no subnormal numbers.
use tahuna_oss.Common.{
  ℕ, zero, suc, ◌+◌, ◌-◌, ◌*◌, ◌/◌, ◌%◌, ◌^◌, Bool, ◌&&◌, ◌||◌, ltb, ◌==◌, if◌then◌else◌,
}

-- numerator / (below + 1)
pub record Fraction : Type 0 where
  pub numerator : ℕ
  pub below : ℕ

abbrev pub whole : ℕ → Fraction
whole n = record { numerator = n; below = 0 }

abbrev pub is_positive : Fraction → Bool
is_positive a = ltb 0 a.numerator

-- The number of binary digits; `fuel` bounds it.
unfoldable pub bit_length_from : ℕ → ℕ → ℕ
bit_length_from zero n = 0
bit_length_from (suc fuel) zero = 0
bit_length_from (suc fuel) (suc n) = suc (bit_length_from fuel (suc n / 2))

unfoldable pub bit_length : ℕ → ℕ
bit_length n = bit_length_from n n

-- The whole number nearest to n / d, the even one of two, for a positive d.
unfoldable pub round_div : ℕ → ℕ → ℕ
round_div n d =
    if ltb d (2 * (n % d)) || 2 * (n % d) == d && n / d % 2 == 1 then suc (n / d) else n / d

-- The nearest multiple of 2 ^ down / 2 ^ up.
abbrev pub round_at : Fraction → ℕ → ℕ → Fraction
round_at a up down = record {
  numerator = round_div (a.numerator * 2 ^ up) (suc a.below * 2 ^ down) * 2 ^ down;
  below = 2 ^ up - 1;
}

-- Rounding to 53 binary digits, for a fraction whose numerator and denominator have these lengths:
-- it has 52 or 53 digits before the point after a shift by 52 + m - n places.
abbrev pub round_lengths : Fraction → ℕ → ℕ → Fraction
round_lengths a n m =
    if ltb (a.numerator * 2 ^ (52 + m - n)) (suc a.below * 2 ^ (n - (52 + m)) * 2 ^ 52)
    then round_at a (53 + m - n) (n - (53 + m))
    else round_at a (52 + m - n) (n - (52 + m))

-- The nearest double. A whole number of at most 53 digits is one.
unfoldable pub round_double : Fraction → Fraction
round_double a =
    if a.numerator % suc a.below == 0 && ltb (a.numerator / suc a.below) (2 ^ 53)
    then whole (a.numerator / suc a.below)
    else round_lengths a (bit_length a.numerator) (bit_length (suc a.below))

infixl 40 ◌times◌ ◌plus◌ ◌over◌
-- `a * b`
abbrev pub ◌times◌ : Fraction → Fraction → Fraction
a times b =
    round_double
      (record { numerator = a.numerator * b.numerator; below = suc a.below * suc b.below - 1 })

-- `a + b`
abbrev pub ◌plus◌ : Fraction → Fraction → Fraction
a plus b = round_double (record {
  numerator = a.numerator * suc b.below + b.numerator * suc a.below;
  below = suc a.below * suc b.below - 1;
})

-- `a / b`, for a positive divisor.
abbrev pub ◌over◌ : Fraction → Fraction → Fraction
a over b =
    round_double
      (record { numerator = a.numerator * suc b.below; below = suc a.below * b.numerator - 1 })

-- `Math.ceil(a)`
unfoldable pub ceil : Fraction → ℕ
ceil a = (a.numerator + a.below) / suc a.below

-- ===== src/Js/Number.antt =====
-- Numbers: the doubles as exact fractions with the special values, `Number.isFinite`, and the
-- normalisations by `Math.floor` and `Math.max(0, …)`.
use tahuna_oss.Common.{ℕ, suc, ◌+◌, ◌*◌, ◌/◌, Bool, true, false, Option, none, some, leb, max, ltb}
use tahuna_oss.Js.Text.{Text, lit, decimal}

-- `finite n d` is n / (d + 1), and `negative n d` is -(n + 1) / (d + 1).
pub data Number : Type 0 where
  nan infinite neg_infinite : Number
  finite negative : ℕ → ℕ → Number

abbrev pub of_ℕ : ℕ → Number
of_ℕ n = finite n 0

abbrev pub is_finite : Number → Bool
is_finite (finite n d) = true
is_finite (negative n d) = true
is_finite _ = false

-- A number is falsy when it is zero or NaN.
abbrev pub truthy_number : Option Number → Bool
truthy_number none = false
truthy_number (some Number.nan) = false
truthy_number (some (finite n d)) = ltb 0 n
truthy_number (some _) = true

-- The values of `Math.max(0, Math.floor(x))`.
pub data Whole : Type 0 where
  nan infinite : Whole
  whole : ℕ → Whole

-- `Math.max(0, Math.floor(x))`
unfoldable pub floor_at_zero : Number → Whole
floor_at_zero Number.nan = Whole.nan
floor_at_zero Number.infinite = Whole.infinite
floor_at_zero neg_infinite = whole 0
floor_at_zero (finite n d) = whole (n / suc d)
floor_at_zero (negative n d) = whole 0

-- `Math.max(0, Math.floor(x))` of a finite number; 0 stands for the values that are not finite.
abbrev pub floor_finite : Number → ℕ
floor_finite (finite n d) = n / suc d
floor_finite _ = 0

-- `Math.max(a, b)` of two whole numbers, one of which may be any number.
abbrev pub max_ℕ : ℕ → ℕ → Number
max_ℕ a b = of_ℕ (max a b)

-- `now >= x + extra`, for whole `now` and `extra`.
unfoldable pub is_due : ℕ → Number → ℕ → Bool
is_due now Number.nan extra = false
is_due now Number.infinite extra = false
is_due now neg_infinite extra = true
is_due now (finite n d) extra = leb (n + extra * suc d) (now * suc d)
is_due now (negative n d) extra = leb (extra * suc d) (now * suc d + suc n)

-- `String(x)` of a floored number; `decimal` says up to where the numeral is exact.
unfoldable pub whole_text : Whole → Text
whole_text Whole.nan = lit "NaN"
whole_text Whole.infinite = lit "Infinity"
whole_text (whole n) = decimal n

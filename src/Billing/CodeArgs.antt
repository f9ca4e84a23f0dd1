-- ===== src/Billing/CodeArgs.antt =====
-- The rows of the redeemable codes and the normalised arguments of their operations, in
-- web/convex/cloud/redeemableCodes.ts. The methods `toUpperCase` and `toLowerCase` and the local time
-- of a day are parameters, and an amount is an exact fraction.
use tahuna_oss.Common.{
  ℕ, suc, ◌+◌, ◌-◌, ◌*◌, ◌/◌, ◌%◌, Bool, true, not, ◌&&◌, ◌||◌, Option, none, some, List, [], ◌∷◌,
  leb, ◌==◌, if◌then◌else◌, map,
}
use tahuna_oss.Common.Int.{ℤ}
use tahuna_oss.Js.Text.{Text, lit, trim, is_empty, mem_text}
use tahuna_oss.Js.Number.{Number, finite}
use tahuna_oss.Mutation.{Result, ok, err}

pub data CodeKind : Type 0 where
  promo referral : CodeKind

pub record CodeRow : Type 0 where
  pub code : Text
  pub kind : CodeKind
  pub amount_cents : ℕ
  pub currency : Text
  pub max_redemptions : ℕ
  pub redemption_count : ℕ
  pub active : Bool
  pub created_by : Text
  pub expires_at : ℕ
  pub updated_at : ℕ

-- The patch of an existing promo code.
pub record PromoPatch : Type 0 where
  pub amount_cents : ℕ
  pub max_redemptions : ℕ
  pub created_by : Text
  pub expires_at : ℕ
  pub updated_at : ℕ

pub data CodePatch : Type 0 where
  promote : PromoPatch → CodePatch
  redeemed : (redemption_count updated_at : ℕ) → CodePatch

abbrev pub patched_code : CodePatch → CodeRow → CodeRow
patched_code (promote p) row = record row {
  amount_cents = p.amount_cents;
  max_redemptions = p.max_redemptions;
  active = true;
  created_by = p.created_by;
  expires_at = p.expires_at;
  updated_at = p.updated_at;
}
patched_code (redeemed count now) row = record row { redemption_count = count; updated_at = now }

pub record CodeArgs : Type 0 where
  pub amount_dollars : Number
  pub max_redemptions : Option Number
  pub expires_at : Text
  pub created_by : Text

pub record RedeemResult : Type 0 where
  pub balance_cents : ℤ
  pub currency : Text
  pub amount_cents_granted : ℕ

-- `/^(\d{2})\/(\d{2})\/(\d{4})$/`
pub record DayMonthYear : Type 0 where
  pub day : ℕ
  pub month : ℕ
  pub year : ℕ

abbrev pub is_digit : ℕ → Bool
is_digit c = leb 48 c && leb c 57

abbrev pub two_digits : ℕ → ℕ → ℕ
two_digits a b = (a - 48) * 10 + (b - 48)

unfoldable pub match_date : Text → Option DayMonthYear
match_date (a ∷ b ∷ s ∷ c ∷ d ∷ t ∷ e ∷ f ∷ g ∷ h ∷ []) =
    if is_digit a
      && is_digit b
      && s == 47
      && is_digit c
      && is_digit d
      && t == 47
      && is_digit e
      && is_digit f
      && is_digit g
      && is_digit h
    then some (record {
      day = two_digits a b;
      month = two_digits c d;
      year = two_digits e f * 100 + two_digits g h;
    })
    else none
match_date _ = none

abbrev pub is_leap_year : ℕ → Bool
is_leap_year year = year % 4 == 0 && not (year % 100 == 0) || year % 400 == 0

abbrev pub days_in_month : ℕ → ℕ → ℕ
days_in_month year month =
    if month == 2
    then if is_leap_year year then 29 else 28
    else if month == 4 || month == 6 || month == 9 || month == 11
    then 30
    else 31

-- `new Date(year, month - 1, day)` gives back the year, the month and the day. It takes a year
-- below 100 for one of the twentieth century.
unfoldable pub is_valid_calendar_date : DayMonthYear → Bool
is_valid_calendar_date date =
    leb 100 date.year
    && leb 1 date.month
    && leb date.month 12
    && leb 1 date.day
    && leb date.day (days_in_month date.year date.month)

-- `Math.round` of a positive number times a hundred.
unfoldable pub normalize_amount_dollars : Number → Result ℕ
normalize_amount_dollars (finite n d) =
    if n == 0
    then err (lit "amount_dollars must be a positive number")
    else ok ((n * 200 + suc d) / (2 * suc d))
normalize_amount_dollars _ = err (lit "amount_dollars must be a positive number")

abbrev pub default_max_redemptions : ℕ
default_max_redemptions = 0

unfoldable pub normalize_max_redemptions : Option Number → Result ℕ
normalize_max_redemptions none = ok default_max_redemptions
normalize_max_redemptions (some (finite n d)) = ok (n / suc d)
normalize_max_redemptions (some _) = err (lit "max_redemptions must be a non-negative number")

-- The parts of the language and of its local time that are not modelled, and the configuration.
pub record CodeSettings : Type 0 where
  pub to_upper_case : Text → Text
  pub to_lower_case : Text → Text
  pub local_time : DayMonthYear → ℕ
  pub authorized_creator_emails : List Text

module _ (settings : CodeSettings) where
  unfoldable pub normalize_code : Text → Result Text
  normalize_code raw =
      let code = settings.to_upper_case (trim raw) in
      if is_empty code then err (lit "code is required") else ok code

  abbrev in_the_future : ℕ → ℕ → Result ℕ
  in_the_future now timestamp =
      if leb timestamp now then err (lit "expires_at must be in the future") else ok timestamp

  abbrev of_match : ℕ → Option DayMonthYear → Result ℕ
  of_match now none = err (lit "expires_at must be in DD/MM/YYYY format")
  of_match now (some date) =
      if is_valid_calendar_date date
      then in_the_future now (settings.local_time date)
      else err (lit "expires_at must be a valid date")

  unfoldable pub normalize_expires_at : ℕ → Text → Result ℕ
  normalize_expires_at now value = of_match now (match_date (trim value))

  unfoldable pub normalize_created_by : Text → Result Text
  normalize_created_by value =
      let created_by = settings.to_lower_case (trim value) in
      if is_empty created_by
      then err (lit "created_by is required")
      else if mem_text created_by (map settings.to_lower_case settings.authorized_creator_emails)
      then ok created_by
      else err (lit "created_by must be an authorized creator email")

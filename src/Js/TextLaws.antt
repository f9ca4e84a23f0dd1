-- ===== src/Js/TextLaws.antt =====
-- Laws of the strings: equality, trimming, slices, decimal numerals, and joining by a separator.
use tahuna_oss.Common.{
  All-mono, ℕ, zero, suc, ◌+◌, ◌-◌, ◌*◌, ◌/◌, ◌%◌, ◌≤◌, ◌<◌, ◌≡◌, refl, sym, ap, ◌∙◌, ◌≢◌, inl, inr,
  true, false, List, [], ◌∷◌, ◌++◌, arith, length, ◌==◌, ==_iff, Bool-cases, All,
}
use tahuna_oss.Js.Text.{
  Text, is_space, trim_start, trim_step, trim_end, trim, slice_to, text_eq, join, decimal_from,
  decimal, is_empty,
}

pub text_eq→eq : (s t : Text) → text_eq s t ≡ true → s ≡ t
unfolding text_eq
text_eq→eq [] [] h = refl
text_eq→eq [] (d ∷ t) h = ground arith
text_eq→eq (c ∷ s) [] h = ground arith
text_eq→eq (c ∷ s) (d ∷ t) h = ground (arith, text_eq→eq s t)

pub text_eq_refl : (s : Text) → text_eq s s ≡ true
unfolding text_eq
text_eq_refl [] = refl
text_eq_refl (c ∷ s) = ground (arith, text_eq_refl s)

pub text_eq_comm : (s t : Text) → text_eq s t ≡ text_eq t s
unfolding text_eq
text_eq_comm [] [] = refl
text_eq_comm [] (d ∷ t) = refl
text_eq_comm (c ∷ s) [] = refl
text_eq_comm (c ∷ s) (d ∷ t) = ground (arith, text_eq_comm s t)

pub length-slice_to : (n : ℕ) (s : Text) → length (slice_to n s) ≤ n
unfolding slice_to
length-slice_to zero s = omega arith
length-slice_to (suc n) [] = omega arith
length-slice_to (suc n) (c ∷ s) = omega (arith, length-slice_to n s)

-- No white space in front.
abbrev HasNoLead : Text → Type 0
HasNoLead [] = Unit
HasNoLead (c ∷ s) = is_space c ≡ false

trim_start-HasNoLead : (s : Text) → HasNoLead (trim_start s)
unfolding trim_start
trim_start-HasNoLead [] = tt
trim_start-HasNoLead (c ∷ s) = elim (Bool-cases (is_space c)) [
  | inl e ↦ rw e (trim_start-HasNoLead s)
  | inr e ↦ rw e e
]

trim_start_of_HasNoLead : (s : Text) → HasNoLead s → trim_start s ≡ s
unfolding trim_start
trim_start_of_HasNoLead [] h = refl
trim_start_of_HasNoLead (c ∷ s) h = rw h

trim_step-HasNoLead : (c : ℕ) (r : Text) → is_space c ≡ false → HasNoLead (trim_step c r)
trim_step-HasNoLead c [] h = rw h h
trim_step-HasNoLead c (d ∷ r) h = h

trim_end-HasNoLead : (s : Text) → HasNoLead s → HasNoLead (trim_end s)
unfolding trim_end
trim_end-HasNoLead [] h = tt
trim_end-HasNoLead (c ∷ s) h = trim_step-HasNoLead c (trim_end s) h

trim_end-trim_step : (c : ℕ) (r : Text) → trim_end r ≡ r → trim_end (trim_step c r) ≡ trim_step c r
unfolding trim_end
trim_end-trim_step c [] h = elim (Bool-cases (is_space c)) [ inl e ↦ rw e | inr e ↦ simp e ]
trim_end-trim_step c (d ∷ r) h = rw h

trim_end_idem : (s : Text) → trim_end (trim_end s) ≡ trim_end s
unfolding trim_end
trim_end_idem [] = refl
trim_end_idem (c ∷ s) = trim_end-trim_step c (trim_end s) (trim_end_idem s)

pub trim_idem : (s : Text) → trim (trim s) ≡ trim s
unfolding trim
trim_idem s =
    ap trim_end
      (trim_start_of_HasNoLead _ (trim_end-HasNoLead (trim_start s) (trim_start-HasNoLead s)))
    ∙ trim_end_idem (trim_start s)

-- The number that a string of digits writes, after the digits already read.
abbrev digits_value : ℕ → Text → ℕ
digits_value acc [] = acc
digits_value acc (c ∷ s) = digits_value (acc * 10 + (c - 48)) s

digits_value-decimal_from :
    (fuel n : ℕ) (acc : Text)
    → n < fuel
    → digits_value 0 (decimal_from fuel n acc) ≡ digits_value n acc
unfolding decimal_from
digits_value-decimal_from zero n acc h = absurd (omega arith)
digits_value-decimal_from (suc fuel) n acc h = elim (Bool-cases (n / 10 == 0)) [
  | inl e ↦
      let small : n / 10 ≡ 0 = (==_iff _ 0).0 e in rw e (ap (λ k. digits_value k acc) (omega arith))
  | inr e ↦ rw e (
      digits_value-decimal_from fuel (n / 10) ((48 + n % 10) ∷ acc) (ground arith)
      ∙ ap (λ k. digits_value k acc) (omega arith))
]

-- The decimal numeral reads back as its number, so two numbers with one numeral are equal.
pub decimal-injective : (m n : ℕ) → decimal m ≡ decimal n → m ≡ n
unfolding decimal
decimal-injective m n h =
    sym (digits_value-decimal_from (suc m) m [] (omega arith))
    ∙ ap (digits_value 0) h
    ∙ digits_value-decimal_from (suc n) n [] (omega arith)

-- A string without the separator.
abbrev pub IsFree : ℕ → Text → Type 0
IsFree sep s = All (λ c. c ≢ sep) s

abbrev pub IsDigit : ℕ → Type 0
IsDigit c = (48 ≤ c) × (c < 58)

decimal_from-IsDigit :
    (fuel n : ℕ) (acc : Text) → All IsDigit acc → All IsDigit (decimal_from fuel n acc)
unfolding decimal_from
decimal_from-IsDigit zero n acc k = k
decimal_from-IsDigit (suc fuel) n acc k = elim (Bool-cases (n / 10 == 0)) [
  | inl e ↦ rw e (omega arith, k)
  | inr e ↦ rw e (decimal_from-IsDigit fuel (n / 10) _ (omega arith, k))
]

pub decimal-IsDigit : (n : ℕ) → All IsDigit (decimal n)
unfolding decimal
decimal-IsDigit n = decimal_from-IsDigit (suc n) n [] tt

decimal_from_ne_nil : (fuel n : ℕ) (acc : Text) → decimal_from (suc fuel) n acc ≢ []
unfolding decimal_from
decimal_from_ne_nil zero n acc h = ground arith
decimal_from_ne_nil (suc fuel) n acc h =
    ground (arith, decimal_from_ne_nil fuel (n / 10) ((48 + n % 10) ∷ acc))

pub decimal-ne-nil : (n : ℕ) → decimal n ≢ []
unfolding decimal
decimal-ne-nil n = decimal_from_ne_nil n n []

-- Trimming keeps what holds of every code unit.
module _ (P : ℕ → Type 0) where
  trim_start-All : (s : Text) → All P s → All P (trim_start s)
  unfolding trim_start
  trim_start-All [] h = tt
  trim_start-All (c ∷ s) h = elim (Bool-cases (is_space c)) [
    | inl e ↦ rw e (trim_start-All s h.1)
    | inr e ↦ rw e h
  ]

  trim_step-All : (c : ℕ) (r : Text) → P c → All P r → All P (trim_step c r)
  trim_step-All c [] p h = elim (Bool-cases (is_space c)) [ inl e ↦ rw e tt | inr e ↦ rw e (p, tt) ]
  trim_step-All c (d ∷ r) p h = (p, h)

  trim_end-All : (s : Text) → All P s → All P (trim_end s)
  unfolding trim_end
  trim_end-All [] h = tt
  trim_end-All (c ∷ s) h = trim_step-All c (trim_end s) h.0 (trim_end-All s h.1)

  pub trim-All : (s : Text) → All P s → All P (trim s)
  unfolding trim
  trim-All s h = trim_end-All (trim_start s) (trim_start-All s h)

-- A string without white space is its own trimming.
trim_end_of_no_space : (s : Text) → All (λ c. is_space c ≡ false) s → trim_end s ≡ s
unfolding trim_end
trim_end_of_no_space [] h = refl
trim_end_of_no_space (c ∷ []) h = rw h.0
trim_end_of_no_space (c ∷ d ∷ s) h = rw (trim_end_of_no_space (d ∷ s) h.1)

pub trim_of_no_space : (s : Text) → All (λ c. is_space c ≡ false) s → trim s ≡ s
unfolding trim
trim_of_no_space [] h = refl
trim_of_no_space (c ∷ s) h =
    rw (trim_start_of_HasNoLead (c ∷ s) h.0) (trim_end_of_no_space (c ∷ s) h)

IsDigit-not_space : (c : ℕ) → IsDigit c → is_space c ≡ false
unfolding is_space
IsDigit-not_space c h = ground arith

pub trim-decimal : (n : ℕ) → trim (decimal n) ≡ decimal n
trim-decimal n =
    trim_of_no_space (decimal n)
      (All-mono IsDigit _ IsDigit-not_space (decimal n) (decimal-IsDigit n))

-- Where two strings split at their first separator, both parts agree.
first_part :
    (sep : ℕ) (p q r t : Text)
    → IsFree sep p
    → IsFree sep q
    → p ++ sep ∷ r ≡ q ++ sep ∷ t
    → (p ≡ q) × (r ≡ t)
first_part sep [] [] r t hp hq e = (refl, cc)
first_part sep [] (d ∷ q) r t hp hq e = absurd (hq.0 (cc))
first_part sep (c ∷ p) [] r t hp hq e = absurd (hp.0 (cc))
first_part sep (c ∷ p) (d ∷ q) r t hp hq e =
    let (same, rest) = first_part sep p q r t hp.1 hq.1 (cc) in (cc, rest)

IsFree-append_absurd : (sep : ℕ) (p q r : Text) → IsFree sep p → p ≡ q ++ sep ∷ r → ⊥
IsFree-append_absurd sep [] [] r h e = cc
IsFree-append_absurd sep [] (d ∷ q) r h e = cc
IsFree-append_absurd sep (c ∷ p) [] r h e = h.0 (cc)
IsFree-append_absurd sep (c ∷ p) (d ∷ q) r h e = IsFree-append_absurd sep p q r h.1 (cc)

-- Joining parts that are free of the separator loses nothing.
pub join-injective :
    (sep : ℕ) (p q : Text) (ps qs : List Text)
    → All (IsFree sep) (p ∷ ps)
    → All (IsFree sep) (q ∷ qs)
    → join sep (p ∷ ps) ≡ join sep (q ∷ qs)
    → ◌≡◌ {A = List Text} (p ∷ ps) (q ∷ qs)
unfolding join
join-injective sep p q [] [] hp hq e = ap (λ x. x ∷ []) e
join-injective sep p q [] (q' ∷ qs) hp hq e = absurd (IsFree-append_absurd sep p q _ hp.0 e)
join-injective sep p q (p' ∷ ps) [] hp hq e = absurd (IsFree-append_absurd sep q p _ hq.0 (sym e))
join-injective sep p q (p' ∷ ps) (q' ∷ qs) hp hq e =
    let (same, rest) = first_part sep p q _ _ hp.0 hq.0 e in
    let tails = join-injective sep p' q' ps qs hp.1 hq.1 rest in cc

trim_end-not_empty : (c : ℕ) (s : Text) → is_space c ≡ false → is_empty (trim_end (c ∷ s)) ≡ false
unfolding trim_end
trim_end-not_empty c s h = of_rest (trim_end s)
  where
    of_rest : (r : Text) → is_empty (trim_step c r) ≡ false
    of_rest [] = rw h refl
    of_rest (d ∷ r) = refl

pub trim-not_empty : (c : ℕ) (s : Text) → is_space c ≡ false → is_empty (trim (c ∷ s)) ≡ false
unfolding trim trim_start
trim-not_empty c s h = rw h (trim_end-not_empty c s h)

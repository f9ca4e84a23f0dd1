-- ===== src/Billing/Ledger.antt =====
-- The balance of every user against the sum of their events, for web/convex/cloud/credits.ts.
pub mod Accounts
pub mod Debits
pub mod Trace
pub mod Repeats
pub mod Returns
pub mod Frame
pub mod Totals
use tahuna_oss.Common.{
  ℕ, ◌≡◌, refl, sym, ap, ◌∙◌, inl, inr, Bool, true, false, not, ◌||◌, Option, none, some, List, [],
  ◌∷◌, ◌++◌, arith, All, All-append, Bool-cases, if◌then◌else◌,
}
use tahuna_oss.Common.Int.{ℤ, pos, ◌+ℤ◌, ◌-ℤ◌, ◌≤ℤ◌, ltb_ℤ, int_laws}
use tahuna_oss.Js.Text.{Text, text_eq}
use tahuna_oss.Js.TextLaws.{text_eq→eq, text_eq_refl}
use tahuna_oss.Billing.Types.{CreditsRow, UsageEvent, EventPatch, patched_event, LedgerDb}
use tahuna_oss.Billing.Credits.{has_key, find_by_key}

module _ {EventId : Type 0} where
  abbrev pub sum_deltas : List (EventId × UsageEvent) → ℤ
  sum_deltas [] = pos 0
  sum_deltas ((id, e) ∷ es) = e.credits_delta_cents +ℤ sum_deltas es

  pub sum_deltas-append :
      (es : List (EventId × UsageEvent)) (id : EventId) (e : UsageEvent)
      → sum_deltas (es ++ (id, e) ∷ []) ≡ sum_deltas es +ℤ e.credits_delta_cents
  sum_deltas-append [] id e = omega int_laws
  sum_deltas-append ((i, d) ∷ es) id e = rw (sum_deltas-append es id e) (omega int_laws)

  pub sum_deltas-replace :
      (es rest : List (EventId × UsageEvent)) (id : EventId) (e e' : UsageEvent)
      → sum_deltas (es ++ (id, e') ∷ rest)
        ≡ sum_deltas (es ++ (id, e) ∷ rest) +ℤ (e'.credits_delta_cents -ℤ e.credits_delta_cents)
  sum_deltas-replace [] rest id e e' = omega int_laws
  sum_deltas-replace ((i, d) ∷ es) rest id e e' =
      rw (sum_deltas-replace es rest id e e') (omega int_laws)

  -- The first event of the list that has the key.
  abbrev pub StandsIn : Text → List (EventId × UsageEvent) → EventId → UsageEvent → Type 0
  StandsIn key es id e =
      (before : List (EventId × UsageEvent)) × (rest : List (EventId × UsageEvent)) × (es
        ≡ before ++ (id, e) ∷ rest)
      × (has_key key e.idempotency_key ≡ true)
      × (find_by_key key before ≡ none)

  pub find_by_key-StandsIn :
      (key : Text) (es : List (EventId × UsageEvent)) (id : EventId) (e : UsageEvent)
      → find_by_key key es ≡ some (id, e)
      → StandsIn key es id e
  unfolding find_by_key
  find_by_key-StandsIn key [] id e h = cc
  find_by_key-StandsIn key ((i, d) ∷ es) id e h =
      elim (Bool-cases (has_key key d.idempotency_key)) [
        | inl k ↦ ([], es, cc (rw k at h), cc (k, rw k at h), refl)
        | inr k ↦
            let (before, rest, same, has, first) = find_by_key-StandsIn key es id e (rw k at h) in
            ((i, d) ∷ before, rest, ap (λ l. (i, d) ∷ l) same, has, rw (k, first) refl)
      ]

-- The keys of the events that a debit may raise. A caller uses such a key for nothing else.
module _ (is_debit_key : Text → Bool) where
  abbrev pub is_debit : Option Text → Bool
  is_debit none = false
  is_debit (some key) = is_debit_key key

  -- An event under the key of a debit does not add credits.
  abbrev pub takes : UsageEvent → Bool
  takes e = not (is_debit e.idempotency_key) || not (ltb_ℤ (pos 0) e.credits_delta_cents)

  abbrev pub balance_of : {CreditsId : Type 0} → Option (CreditsId × CreditsRow) → ℤ
  balance_of none = pos 0
  balance_of (some (id, row)) = row.balance_cents

  -- The balance is the sum of the events, and not negative.
  pub record UserBalanced {CreditsId EventId : Type 0} (row : Option (CreditsId × CreditsRow))
      (es : List (EventId × UsageEvent)) : Type 0 where
    pub sums : balance_of row ≡ sum_deltas es
    pub nonnegative : pos 0 ≤ℤ balance_of row
    pub taking : All (λ p. takes p.1 ≡ true) es

  module _ {S CreditsId EventId : Type 0} (db : LedgerDb S CreditsId EventId) where
    open db use {credits, events}

    abbrev pub Balanced : S → Type 0
    Balanced s = (user : Text) → UserBalanced (credits s user) (events s user)

    -- The two states differ at most in the row and the events of one user.
    abbrev pub Writes :
        S → S → Text → Option (CreditsId × CreditsRow) → List (EventId × UsageEvent) → Type 0
    Writes s t owner row es =
        (user : Text)
        → (credits t user ≡ (if text_eq owner user then row else credits s user))
          × (events t user ≡ (if text_eq owner user then es else events s user))

    pub Writes-Balanced :
        (s t : S) (owner : Text) (row : Option (CreditsId × CreditsRow))
        (es : List (EventId × UsageEvent))
        → Balanced s
        → Writes s t owner row es
        → UserBalanced row es
        → Balanced t
    Writes-Balanced s t owner row es b w h user = elim (Bool-cases (text_eq owner user)) [
      | inl e ↦ rw ((w user).0, (w user).1, e) h
      | inr e ↦ rw ((w user).0, (w user).1, e) (b user)
    ]

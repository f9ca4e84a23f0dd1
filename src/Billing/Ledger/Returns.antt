-- ===== src/Billing/Ledger/Returns.antt =====
-- The mutations of the ledger that return whatever the database holds: web/convex/cloud/credits.ts.
use tahuna_oss.Common.{
  ℕ, suc, ◌/◌, ◌≡◌, refl, sym, ◌∙◌, inl, inr, false, Option, none, some, ◌==◌, arith, Bool-cases,
  Option-cases,
}
use tahuna_oss.Common.Int.{pos, ltb_ℤ}
use tahuna_oss.Js.Text.{Text, lit, trim, is_empty}
use tahuna_oss.Js.Number.{of_ℕ, floor_finite}
use tahuna_oss.Js.TextLaws.{trim_idem}
use tahuna_oss.Mutation.{Result, ok, bind-ok}
use tahuna_oss.Billing.Types.{BillingConfig, CreditsRow, UsageEvent, LedgerDb}
use tahuna_oss.Billing.Credits.{
  CreditEventArgs, LedgerEntryArgs, LedgerEntryResult, initial_row, initial_grant,
  create_credits_row, ensure_credits_row, post_new, post_found, post_ledger_entry,
  grant_user_credits, grant_entry, normalize_user_id, normalize_ledger_delta, normalize_cents,
}

pub normalize_user_id_again :
    (value user : Text) → normalize_user_id value ≡ ok user → normalize_user_id user ≡ ok user
unfolding normalize_user_id
normalize_user_id_again value user h = elim (Bool-cases (is_empty (trim value))) [
  | inl e ↦ cc (rw e at h)
  | inr e ↦ let same : trim value ≡ user = cc (rw e at h) in rw (sym same, trim_idem value, e) refl
]

pub normalize_cents-of_ℕ : (n : ℕ) → normalize_cents (of_ℕ (suc n)) ≡ ok (suc n)
unfolding normalize_cents
normalize_cents-of_ℕ n =
    let same : suc n / 1 ≡ suc n = omega arith in
    let some_cents : (suc n == 0) ≡ false = ground arith in rw (same, some_cents) refl

pub normalize_ledger_delta-of_ℕ : (n : ℕ) → normalize_ledger_delta (of_ℕ n) ≡ ok (pos n)
unfolding normalize_ledger_delta
normalize_ledger_delta-of_ℕ n = let same : n / 1 ≡ n = omega arith in rw same refl

module _ {S CreditsId EventId : Type 0} (db : LedgerDb S CreditsId EventId)
    (config : BillingConfig) where
  open db use {
    credits, events, insert_credits, insert_event, get_credits, get-insert_credits,
    get-insert_event,
  }

  create_credits_row-returns :
      (s : S) (now : ℕ) (user source : Text)
      → (found : CreditsId × CreditsRow) × (t : S) × (create_credits_row db config now user source s
          ≡ ok (found, t))
  unfolding create_credits_row
  create_credits_row-returns s now user source =
      let row = initial_row db config now user in
      let (t, id) = insert_credits s row in
      let grant = initial_grant db config now user source id in
      elim (Bool-cases (floor_finite config.initial_credit_cents == 0)) [
        | inl none_given ↦ ((id, row), t, rw (none_given, get-insert_credits s row) refl)
        | inr given ↦ (
          (id, row),
          (insert_event t grant).0,
          rw (given, get-insert_event t grant id, get-insert_credits s row) refl,
        )
      ]

  pub ensure_credits_row-returns :
      (s : S) (now : ℕ) (user source : Text)
      → (found : CreditsId × CreditsRow) × (t : S) × (ensure_credits_row db config now user source s
          ≡ ok (found, t))
  unfolding ensure_credits_row
  ensure_credits_row-returns s now user source = elim (Option-cases (credits s user)) [
    | inl h ↦ rw h (create_credits_row-returns s now user source)
    | inr (found, h) ↦ (found, s, rw h refl)
  ]

  -- An entry that takes nothing is accepted.
  abbrev pub Accepts : Result (Option LedgerEntryResult × S) → Type 0
  Accepts m = (r : LedgerEntryResult) × (t : S) × (m ≡ ok (some r, t))

  post_new-Accepts :
      (s : S) (now : ℕ) (args : LedgerEntryArgs) (user : Text) (n : ℕ)
      (found : CreditsId × CreditsRow)
      → Accepts (post_new db config now args user (pos n) found s)
  unfolding post_new
  post_new-Accepts s now args user n (id, row) =
      let gives : ltb_ℤ (pos n) (pos 0) ≡ false = ground arith in rw gives (_, _, refl)

  post_found-Accepts :
      (s : S) (now : ℕ) (args : LedgerEntryArgs) (user : Text) (n : ℕ)
      (o : Option (EventId × UsageEvent))
      → Accepts (post_found db config now args user (pos n) o s)
  post_found-Accepts s now args user n (some (id, e)) = (_, s, refl)
  post_found-Accepts s now args user n none =
      let (found, s', made) = ensure_credits_row-returns s now user (lit "usage_event") in
      let (r, t, done) = post_new-Accepts s' now args user n found in
      (
        r,
        t,
        bind-ok (ensure_credits_row db config now user (lit "usage_event")) _ s s' found made
            ∙ done,
      )

  pub post_ledger_entry-Accepts :
      (s : S) (now : ℕ) (args : LedgerEntryArgs) (user : Text) (n : ℕ)
      → normalize_user_id args.user_id ≡ ok user
      → normalize_ledger_delta args.delta_cents ≡ ok (pos n)
      → Accepts (post_ledger_entry db config now args s)
  unfolding post_ledger_entry
  post_ledger_entry-Accepts s now args user n u d =
      rw (u, d) (post_found-Accepts s now args user n _)

  pub grant_user_credits-Accepts :
      (s : S) (now : ℕ) (args : CreditEventArgs) (user : Text) (n : ℕ)
      → normalize_user_id args.user_id ≡ ok user
      → args.amount_cents ≡ of_ℕ (suc n)
      → Accepts (grant_user_credits db config now args s)
  unfolding grant_user_credits
  grant_user_credits-Accepts s now args user n u a =
      rw (u, a, normalize_cents-of_ℕ n)
        (post_ledger_entry-Accepts s now (grant_entry args user (suc n)) user (suc n)
          (normalize_user_id_again args.user_id user u) (normalize_ledger_delta-of_ℕ (suc n)))

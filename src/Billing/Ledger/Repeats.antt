-- ===== src/Billing/Ledger/Repeats.antt =====
-- An entry of the ledger that is posted twice under one key: `postLedgerEntry` of
-- web/convex/cloud/credits.ts.
use tahuna_oss.Common.{
  ℕ, ◌≡◌, refl, sym, ap, ◌∙◌, inl, inr, true, false, ◌&&◌, Option, none, some, List, [], ◌∷◌, ◌++◌,
  Bool-cases, Option-cases, ◌==◌,
}
use tahuna_oss.Common.Int.{ℤ, pos, neg_part, ◌+ℤ◌, ltb_ℤ, eq_ℤ}
use tahuna_oss.Js.Text.{Text, lit}
use tahuna_oss.Js.Number.{floor_finite}
use tahuna_oss.Js.TextLaws.{text_eq_refl}
use tahuna_oss.Mutation.{Result, ok, err, bind-Returns, lift-Returns}
use tahuna_oss.Billing.Types.{BillingConfig, CreditsRow, CreditsPatch, UsageEvent, LedgerDb}
use tahuna_oss.Billing.Credits.{
  CreditEventArgs, grant_user_credits, grant_entry, normalize_cents, LedgerEntryArgs,
  LedgerEntryResult, entry_result, initial_row, initial_grant, create_credits_row, read_back,
  ensure_credits_row, entry_event, post_new, post_found, post_ledger_entry, normalize_optional_text,
  normalize_user_id, normalize_ledger_delta, find_by_key, has_key,
}
use tahuna_oss.Billing.Ledger.Returns.{normalize_user_id_again, normalize_ledger_delta-of_ℕ}

pub find_by_key-append_other :
    {EventId : Type 0} (key : Text) (es : List (EventId × UsageEvent)) (id : EventId)
    (e : UsageEvent)
    → has_key key e.idempotency_key ≡ false
    → find_by_key key (es ++ (id, e) ∷ []) ≡ find_by_key key es
unfolding find_by_key
find_by_key-append_other key [] id e h = rw h refl
find_by_key-append_other key ((i, d) ∷ es) id e h = rw (find_by_key-append_other key es id e h) refl

pub find_by_key-append_new :
    {EventId : Type 0} (key : Text) (es : List (EventId × UsageEvent)) (id : EventId)
    (e : UsageEvent)
    → has_key key e.idempotency_key ≡ true
    → find_by_key key es ≡ none
    → find_by_key key (es ++ (id, e) ∷ []) ≡ some (id, e)
unfolding find_by_key
find_by_key-append_new key [] id e h k = rw h refl
find_by_key-append_new key ((i, d) ∷ es) id e h k =
    elim (Bool-cases (has_key key d.idempotency_key)) [
      | inl c ↦ cc (rw c at k)
      | inr c ↦ rw c (find_by_key-append_new key es id e h (rw c at k))
    ]

module _ {S CreditsId EventId : Type 0} (db : LedgerDb S CreditsId EventId)
    (config : BillingConfig) where
  open db use {
    credits, events, insert_credits, patch_credits, insert_event, get_credits,
    events-insert_credits, events-patch_credits, events-insert_event,
  }

  -- The mutation leaves every event that has a key as it was.
  abbrev KeepsEvents : {A : Type 0} → Text → Text → S → Result (A × S) → Type 0
  KeepsEvents user key s (err e) = Unit
  KeepsEvents user key s (ok (a, t)) =
      find_by_key key (events t user) ≡ find_by_key key (events s user)

  read_back-KeepsEvents :
      (user key : Text) (s t : S) (id : CreditsId) (o : Option CreditsRow)
      → find_by_key key (events t user) ≡ find_by_key key (events s user)
      → KeepsEvents user key s (read_back db config id t o)
  read_back-KeepsEvents user key s t id none h = tt
  read_back-KeepsEvents user key s t id (some row) h = h

  create_credits_row-KeepsEvents :
      (s : S) (now : ℕ) (user source key : Text)
      → KeepsEvents user key s (create_credits_row db config now user source s)
  unfolding create_credits_row
  create_credits_row-KeepsEvents s now user source key =
      let (t, id) = insert_credits s (initial_row db config now user) in
      let grant = initial_grant db config now user source id in
      let inserted = events-insert_credits s (initial_row db config now user) user in
      elim (Bool-cases (floor_finite config.initial_credit_cents == 0)) [
        | inl none_given ↦ rw none_given (
            read_back-KeepsEvents user key s t id (get_credits t id)
              (ap (find_by_key key) inserted))
        | inr given ↦ rw given (
            read_back-KeepsEvents user key s (insert_event t grant).0 id
              (get_credits (insert_event t grant).0 id)
              (rw (events-insert_event t grant user, text_eq_refl user, inserted)
                (find_by_key-append_other key (events s user) (insert_event t grant).1 grant refl)))
      ]

  pub ensure_credits_row-KeepsEvents :
      (s : S) (now : ℕ) (user source key : Text)
      → KeepsEvents user key s (ensure_credits_row db config now user source s)
  unfolding ensure_credits_row
  ensure_credits_row-KeepsEvents s now user source key = elim (Option-cases (credits s user)) [
    | inl h ↦ rw h (create_credits_row-KeepsEvents s now user source key)
    | inr (found, h) ↦ rw h refl
  ]

  -- The entry under this key, with the amounts of the result.
  abbrev pub PostedAs : Text → Text → S → LedgerEntryResult → Type 0
  PostedAs user key t r =
      (id : EventId) × (e : UsageEvent) × (find_by_key key (events t user) ≡ some (id, e))
      × (e.balance_after_cents ≡ r.balance_cents)
      × (e.credits_delta_cents ≡ r.delta_cents)

  insert-PostedAs :
      (s t : S) (now : ℕ) (args : LedgerEntryArgs) (user key : Text) (delta balance : ℤ)
      → normalize_optional_text args.idempotency_key ≡ some key
      → find_by_key key (events s user) ≡ none
      → events t user ≡ events s user
      → PostedAs user key
          (insert_event t (entry_event now args user delta balance)).0
          (entry_result balance delta)
  insert-PostedAs s t now args user key delta balance k h same =
      let e = entry_event now args user delta balance in
      let keyed : has_key key e.idempotency_key ≡ true = rw k (text_eq_refl key) in
      (
        (insert_event t e).1,
        e,
        rw (events-insert_event t e user, text_eq_refl user, same)
            (find_by_key-append_new key (events s user) (insert_event t e).1 e keyed h),
        refl,
        refl,
      )

  post_new-PostedAs :
      (s t : S) (now : ℕ) (args : LedgerEntryArgs) (user key : Text) (delta : ℤ) (id : CreditsId)
      (row : CreditsRow) (r : LedgerEntryResult)
      → normalize_optional_text args.idempotency_key ≡ some key
      → find_by_key key (events s user) ≡ none
      → post_new db config now args user delta (id, row) s ≡ ok (some r, t)
      → PostedAs user key t r
  unfolding post_new
  post_new-PostedAs s t now args user key delta id row r k h done =
      let balance = row.balance_cents +ℤ delta in
      let p : CreditsPatch = record { balance_cents = balance; updated_at = now } in
      elim (Bool-cases (ltb_ℤ delta (pos 0) && ltb_ℤ row.balance_cents (pos (neg_part delta)))) [
        | inl short ↦ cc (rw short at done)
        | inr enough ↦ elim (Bool-cases (eq_ℤ delta (pos 0))) [
          | inl same ↦
              let result : entry_result balance delta ≡ r = cc (rw (enough, same) at done) in
              let state : (insert_event s (entry_event now args user delta balance)).0 ≡ t =
                cc (rw (enough, same) at done) in
              rw (sym result, sym state)
                (insert-PostedAs s s now args user key delta balance k h refl)
          | inr moves ↦
              let result : entry_result balance delta ≡ r = cc (rw (enough, moves) at done) in
              let state : (insert_event (patch_credits s id p)
                    (entry_event now args user delta balance)).0
                  ≡ t =
                cc (rw (enough, moves) at done) in
              rw (sym result, sym state)
                (insert-PostedAs s (patch_credits s id p) now args user key delta balance k h
                  (events-patch_credits s id p user))
        ]
      ]

  post_created-PostedAs :
      (s t : S) (now : ℕ) (args : LedgerEntryArgs) (user key : Text) (delta : ℤ)
      (r : LedgerEntryResult)
      → normalize_optional_text args.idempotency_key ≡ some key
      → find_by_key key (events s user) ≡ none
      → post_found db config now args user delta none s ≡ ok (some r, t)
      → PostedAs user key t r
  post_created-PostedAs s t now args user key delta r k h done =
      let ((id, row), s', made, rest) =
        bind-Returns (ensure_credits_row db config now user (lit "usage_event"))
          (post_new db config now args user delta) s t (some r) done in
      let kept = rw made at (ensure_credits_row-KeepsEvents s now user (lit "usage_event") key) in
      post_new-PostedAs s' t now args user key delta id row r k (kept ∙ h) rest

  post_found-PostedAs :
      (s t : S) (now : ℕ) (args : LedgerEntryArgs) (user key : Text) (delta : ℤ)
      (r : LedgerEntryResult) (o : Option (EventId × UsageEvent))
      → normalize_optional_text args.idempotency_key ≡ some key
      → find_by_key key (events s user) ≡ o
      → post_found db config now args user delta o s ≡ ok (some r, t)
      → PostedAs user key t r
  post_found-PostedAs s t now args user key delta r none k h done =
      post_created-PostedAs s t now args user key delta r k h done
  post_found-PostedAs s t now args user key delta r (some (id, e)) k h done =
      let state : s ≡ t = cc done in (id, e, rw (sym state) h, cc done, cc done)

  pub post_ledger_entry-PostedAs :
      (s t : S) (now : ℕ) (args : LedgerEntryArgs) (user key : Text) (delta : ℤ)
      (r : LedgerEntryResult)
      → normalize_user_id args.user_id ≡ ok user
      → normalize_optional_text args.idempotency_key ≡ some key
      → normalize_ledger_delta args.delta_cents ≡ ok delta
      → post_ledger_entry db config now args s ≡ ok (some r, t)
      → PostedAs user key t r
  unfolding post_ledger_entry
  post_ledger_entry-PostedAs s t now args user key delta r u k d done =
      post_found-PostedAs s t now args user key delta r (find_by_key key (events s user)) k refl
        (rw (u, d, k) at done)

  pub grant_user_credits-PostedAs :
      (s t : S) (now : ℕ) (args : CreditEventArgs) (user key : Text) (r : LedgerEntryResult)
      → normalize_user_id args.user_id ≡ ok user
      → normalize_optional_text args.idempotency_key ≡ some key
      → grant_user_credits db config now args s ≡ ok (some r, t)
      → PostedAs user key t r
  unfolding grant_user_credits
  grant_user_credits-PostedAs s t now args user key r u k done =
      let (amount, e, rest) =
        lift-Returns (normalize_cents args.amount_cents)
          (λ amount. post_ledger_entry db config now (grant_entry args user amount)) s t (some r)
          (rw u at done) in
      post_ledger_entry-PostedAs s t now (grant_entry args user amount) user key (pos amount) r
        (normalize_user_id_again args.user_id user u) k (normalize_ledger_delta-of_ℕ amount) rest

  -- An entry that was accepted under a key is accepted again at any later time, whatever it asks
  -- for then, with the balance and the amount of the first, and changes nothing.
  pub post_ledger_entry_again :
      (s t : S) (now later : ℕ) (args again : LedgerEntryArgs) (user key : Text) (delta delta' : ℤ)
      (r : LedgerEntryResult)
      → normalize_user_id args.user_id ≡ ok user
      → normalize_user_id again.user_id ≡ ok user
      → normalize_optional_text args.idempotency_key ≡ some key
      → normalize_optional_text again.idempotency_key ≡ some key
      → normalize_ledger_delta args.delta_cents ≡ ok delta
      → normalize_ledger_delta again.delta_cents ≡ ok delta'
      → post_ledger_entry db config now args s ≡ ok (some r, t)
      → post_ledger_entry db config later again t ≡ ok (some (record r { applied = false }), t)
  unfolding post_ledger_entry
  post_ledger_entry_again s t now later args again user key delta delta' r u u' k k' d d' done =
      let (id, e, found, balance, amount) =
        post_ledger_entry-PostedAs s t now args user key delta r u k d done in
      rw (u', d', k', found, balance, amount) refl

-- ===== src/Billing/Ledger/Accounts.antt =====
-- The row of a user that is created on demand, and an entry of the ledger.
use tahuna_oss.Common.{
  ℕ, ◌≡◌, refl, ap, ◌∙◌, inl, inr, Bool, true, false, not, ◌||◌, ◌&&◌, Option, none, some, List, [],
  ◌∷◌, ◌++◌, arith, All-append, Bool-cases, Option-cases, ◌==◌, ==_iff,
}
use tahuna_oss.Common.Int.{ℤ, pos, neg_part, ◌+ℤ◌, ◌≤ℤ◌, ltb_ℤ, eq_ℤ, eq_ℤ→eq, +ℤ_parts, int_laws}
use tahuna_oss.Js.Text.{Text, text_eq}
use tahuna_oss.Js.Number.{floor_finite}
use tahuna_oss.Js.TextLaws.{text_eq→eq, text_eq_refl}
use tahuna_oss.Mutation.{ok}
use tahuna_oss.Billing.Types.{
  BillingConfig, CreditsRow, CreditsPatch, UsageEvent, patched_credits, LedgerDb,
}
use tahuna_oss.Billing.Credits.{
  LedgerEntryArgs, LedgerEntryResult, entry_result, initial_row, initial_grant, create_credits_row,
  ensure_credits_row, entry_event, post_new, normalize_optional_text,
}
use tahuna_oss.Billing.Ledger.{
  sum_deltas-append, is_debit, takes, balance_of, UserBalanced, Balanced, Writes, Writes-Balanced,
}

-- A balance that covers what is taken stays zero or more.
nonneg_after :
    (balance delta : ℤ)
    → (ltb_ℤ delta (pos 0) && ltb_ℤ balance (pos (neg_part delta))) ≡ false
    → pos 0 ≤ℤ balance
    → pos 0 ≤ℤ balance +ℤ delta
nonneg_after balance delta h b = ground (arith, +ℤ_parts balance delta)

module _ (is_debit_key : Text → Bool) {S CreditsId EventId : Type 0}
    (db : LedgerDb S CreditsId EventId) (config : BillingConfig) where
  open db use {
    credits, events, insert_credits, patch_credits, insert_event, patch_event, get-insert_credits,
    get-insert_event, credits-insert_credits, events-insert_credits, credits-patch_credits,
    events-patch_credits, events-insert_event, credits-insert_event,
  }

  abbrev pub Good : S → Type 0
  Good s = Balanced is_debit_key db s

  -- A write of one event, of another user's too.
  pub insert_event-Writes :
      (s t : S) (owner : Text) (row : Option (CreditsId × CreditsRow))
      (es : List (EventId × UsageEvent)) (e : UsageEvent)
      → e.user_id ≡ owner
      → Writes is_debit_key db s t owner row es
      → Writes is_debit_key db s
          (insert_event t e).0
          owner
          row
          (es ++ ((insert_event t e).1, e) ∷ [])
  insert_event-Writes s t owner row es e mine w user = elim (Bool-cases (text_eq owner user)) [
    | inl k ↦ (
      credits-insert_event t e user ∙ (w user).0,
      events-insert_event t e user ∙ rw (mine, (w user).1, k) refl,
    )
    | inr k ↦ (
      credits-insert_event t e user ∙ (w user).0,
      events-insert_event t e user ∙ rw (mine, (w user).1, k) refl,
    )
  ]

  pub patch_credits-Writes :
      (s : S) (owner : Text) (id : CreditsId) (row : CreditsRow) (p : CreditsPatch)
      → credits s owner ≡ some (id, row)
      → Writes is_debit_key db s
          (patch_credits s id p)
          owner
          (some (id, patched_credits p row))
          (events s owner)
  patch_credits-Writes s owner id row p h user = elim (Bool-cases (text_eq owner user)) [
    | inl k ↦ (
      credits-patch_credits s owner id row p user h,
      events-patch_credits s id p user ∙ rw (k, text_eq→eq owner user k) refl,
    )
    | inr k ↦ (
      credits-patch_credits s owner id row p user h,
      events-patch_credits s id p user ∙ rw k refl,
    )
  ]

  pub none-Writes :
      (s : S) (owner : Text) (row : Option (CreditsId × CreditsRow))
      → credits s owner ≡ row
      → Writes is_debit_key db s s owner row (events s owner)
  none-Writes s owner row h user = elim (Bool-cases (text_eq owner user)) [
    | inl k ↦ let same = text_eq→eq owner user k in (rw k (rw same at h), rw (k, same) refl)
    | inr k ↦ (rw k refl, rw k refl)
  ]

  pub append-UserBalanced :
      (row row' : Option (CreditsId × CreditsRow)) (es : List (EventId × UsageEvent)) (id : EventId)
      (e : UsageEvent)
      → takes is_debit_key e ≡ true
      → balance_of is_debit_key row' ≡ balance_of is_debit_key row +ℤ e.credits_delta_cents
      → pos 0 ≤ℤ balance_of is_debit_key row'
      → UserBalanced is_debit_key row es
      → UserBalanced is_debit_key row' (es ++ (id, e) ∷ [])
  append-UserBalanced row row' es id e ok_key moved enough b = record {
    sums = rw (sum_deltas-append es id e) (moved ∙ ap (λ x. x +ℤ e.credits_delta_cents) b.sums);
    nonnegative = enough;
    taking =
        All-append (λ p. takes is_debit_key p.1 ≡ true) es ((id, e) ∷ []) b.taking (ok_key, tt);
  }

  -- The row of this user, in a good state.
  abbrev pub HasAccount : S → Text → CreditsId × CreditsRow → Type 0
  HasAccount s user found = (credits s user ≡ some found) × Good s

  inserted-Writes :
      (s : S) (now : ℕ) (user : Text)
      → credits s user ≡ none
      → Writes is_debit_key db s
          (insert_credits s (initial_row db config now user)).0
          user
          (some
            ((insert_credits s (initial_row db config now user)).1, initial_row db config now user))
          (events s user)
  inserted-Writes s now user h u = elim (Bool-cases (text_eq user u)) [
    | inl k ↦ (
      credits-insert_credits s (initial_row db config now user) u h,
      events-insert_credits s (initial_row db config now user) u ∙ rw (k, text_eq→eq user u k) refl,
    )
    | inr k ↦ (
      credits-insert_credits s (initial_row db config now user) u h,
      events-insert_credits s (initial_row db config now user) u ∙ rw k refl,
    )
  ]

  create_credits_row-HasAccount :
      (s : S) (now : ℕ) (user source : Text)
      → credits s user ≡ none
      → Good s
      → (found : CreditsId × CreditsRow) × (t : S) × (create_credits_row db config now user source s
          ≡ ok (found, t))
        × HasAccount t user found
  unfolding create_credits_row
  create_credits_row-HasAccount s now user source h b =
      let row = initial_row db config now user in
      let (t, id) = insert_credits s row in
      let grant = initial_grant db config now user source id in
      let w = inserted-Writes s now user h in
      let (w0, w1) = w user in
      let empty = rw h at (b user) in
      elim (Bool-cases (floor_finite config.initial_credit_cents == 0)) [
        | inl none_given ↦ (
          (id, row),
          t,
          rw (none_given, get-insert_credits s row) refl,
          (
            rw (text_eq_refl user) at w0,
            Writes-Balanced is_debit_key db s t user (some (id, row)) (events s user) b w (record {
              sums = ap pos ((==_iff _ 0).0 none_given) ∙ empty.sums;
              nonnegative = omega arith;
              taking = empty.taking;
            }),
          ),
        )
        | inr given ↦ (
          (id, row),
          (insert_event t grant).0,
          rw (given, get-insert_event t grant id, get-insert_credits s row) refl,
          (
            credits-insert_event t grant user ∙ rw (text_eq_refl user) at w0,
            Writes-Balanced is_debit_key db s (insert_event t grant).0 user (some (id, row)) _ b
                (insert_event-Writes s t user (some (id, row)) (events s user) grant refl w)
                (append-UserBalanced none (some (id, row)) (events s user) (insert_event t grant).1
                  grant refl (omega int_laws) (omega arith) empty),
          ),
        )
      ]

  pub ensure_credits_row-HasAccount :
      (s : S) (now : ℕ) (user source : Text)
      → Good s
      → (found : CreditsId × CreditsRow) × (t : S) × (ensure_credits_row db config now user source s
          ≡ ok (found, t))
        × HasAccount t user found
  unfolding ensure_credits_row
  ensure_credits_row-HasAccount s now user source b = elim (Option-cases (credits s user)) [
    | inl h ↦ rw h (create_credits_row-HasAccount s now user source h b)
    | inr (found, h) ↦ (found, s, rw h refl, (h, b))
  ]

  -- An entry with this key does not add credits under the key of a debit.
  abbrev pub IsAllowed : Option Text → ℤ → Type 0
  IsAllowed key delta = (not (is_debit is_debit_key key) || not (ltb_ℤ (pos 0) delta)) ≡ true

  pub post_new-Good :
      (s : S) (now : ℕ) (args : LedgerEntryArgs) (user : Text) (delta : ℤ) (id : CreditsId)
      (row : CreditsRow)
      → IsAllowed (normalize_optional_text args.idempotency_key) delta
      → HasAccount s user (id, row)
      → (r : Option LedgerEntryResult) × (t : S) × (post_new db config now args user delta
            (id, row)
            s
          ≡ ok (r, t))
        × Good t
  unfolding post_new
  post_new-Good s now args user delta id row allowed (h, b) =
      let account = rw h at (b user) in
      let balance = row.balance_cents +ℤ delta in
      let e = entry_event now args user delta balance in
      let p : CreditsPatch = record { balance_cents = balance; updated_at = now } in
      elim (Bool-cases (ltb_ℤ delta (pos 0) && ltb_ℤ row.balance_cents (pos (neg_part delta)))) [
        | inl short ↦ (none, s, rw short refl, b)
        | inr enough ↦ elim (Bool-cases (eq_ℤ delta (pos 0))) [
          | inl same ↦ (
            some (entry_result balance delta),
            (insert_event s e).0,
            rw (enough, same) refl,
            Writes-Balanced is_debit_key db s (insert_event s e).0 user (some (id, row)) _ b
                (insert_event-Writes s s user (some (id, row)) (events s user) e refl
                  (none-Writes s user (some (id, row)) h))
                (append-UserBalanced (some (id, row)) (some (id, row)) (events s user) _ e allowed
                  (rw (eq_ℤ→eq delta (pos 0) same) (omega int_laws)) account.nonnegative account),
          )
          | inr moves ↦ (
            some (entry_result balance delta),
            (insert_event (patch_credits s id p) e).0,
            rw (enough, moves) refl,
            Writes-Balanced is_debit_key db s (insert_event (patch_credits s id p) e).0 user
                (some (id, patched_credits p row)) _ b
                (insert_event-Writes s (patch_credits s id p) user
                  (some (id, patched_credits p row)) (events s user) e refl
                  (patch_credits-Writes s user id row p h))
                (append-UserBalanced (some (id, row)) (some (id, patched_credits p row))
                  (events s user) _ e allowed refl
                  (nonneg_after row.balance_cents delta enough account.nonnegative) account),
          )
        ]
      ]

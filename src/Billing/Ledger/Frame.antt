-- ===== src/Billing/Ledger/Frame.antt =====
-- What the entries of the ledger leave alone: a property of the database that the writes of
-- web/convex/cloud/credits.ts keep.
use tahuna_oss.Common.{ℕ, inl, inr, ◌&&◌, Option, none, some, Bool-cases, Option-cases, ◌==◌}
use tahuna_oss.Common.Int.{ℤ, pos, neg_part, ◌+ℤ◌, ltb_ℤ, eq_ℤ}
use tahuna_oss.Js.Text.{Text, lit}
use tahuna_oss.Js.Number.{floor_finite}
use tahuna_oss.Mutation.{after, after-lift, after-bind}
use tahuna_oss.Billing.Types.{BillingConfig, CreditsRow, CreditsPatch, UsageEvent, LedgerDb}
use tahuna_oss.Billing.Credits.{
  CreditEventArgs, LedgerEntryArgs, initial_row, initial_grant, create_credits_row, read_back,
  ensure_credits_row, entry_event, post_new, post_found, post_ledger_entry, grant_user_credits,
  grant_entry, normalize_user_id, normalize_cents, normalize_ledger_delta,
}
use tahuna_oss.Billing.Ledger.Returns.{ensure_credits_row-returns}

module _ {S CreditsId EventId : Type 0} (db : LedgerDb S CreditsId EventId) (config : BillingConfig)
    (P : S → Type 0) (inserted : (s : S) (row : CreditsRow) → P s → P (db.insert_credits s row).0)
    (patched : (s : S) (id : CreditsId) (p : CreditsPatch) → P s → P (db.patch_credits s id p))
    (logged : (s : S) (e : UsageEvent) → P s → P (db.insert_event s e).0) where
  open db use {credits, events, insert_credits, patch_credits, insert_event, get_credits}

  read_back-keeps :
      (s t : S) (id : CreditsId) (o : Option CreditsRow)
      → P s
      → P t
      → P (after (read_back db config id t o) s)
  read_back-keeps s t id none h k = h
  read_back-keeps s t id (some row) h k = k

  pub ensure_credits_row-keeps :
      (s : S) (now : ℕ) (user source : Text)
      → P s
      → P (after (ensure_credits_row db config now user source s) s)
  unfolding ensure_credits_row create_credits_row
  ensure_credits_row-keeps s now user source h =
      let (t, id) = insert_credits s (initial_row db config now user) in
      let made = inserted s (initial_row db config now user) h in
      let granted = (insert_event t (initial_grant db config now user source id)).0 in
      elim (Option-cases (credits s user)) [
        | inr (found, e) ↦ rw e h
        | inl e ↦ elim (Bool-cases (floor_finite config.initial_credit_cents == 0)) [
          | inl z ↦ rw (e, z) (read_back-keeps s t id (get_credits t id) h made)
          | inr p ↦
              rw (e, p)
                (read_back-keeps s granted id (get_credits granted id) h
                  (logged t (initial_grant db config now user source id) made))
        ]
      ]

  post_new-keeps :
      (s s' : S) (now : ℕ) (args : LedgerEntryArgs) (user : Text) (delta : ℤ) (id : CreditsId)
      (row : CreditsRow)
      → P s
      → P (after (post_new db config now args user delta (id, row) s) s')
  unfolding post_new
  post_new-keeps s s' now args user delta id row h =
      let balance = row.balance_cents +ℤ delta in
      let e = entry_event now args user delta balance in
      elim (Bool-cases (ltb_ℤ delta (pos 0) && ltb_ℤ row.balance_cents (pos (neg_part delta)))) [
        | inl short ↦ rw short h
        | inr enough ↦ elim (Bool-cases (eq_ℤ delta (pos 0))) [
          | inl same ↦ rw (enough, same) (logged s e h)
          | inr moves ↦ rw (enough, moves) (logged _ e (patched s id _ h))
        ]
      ]

  post_found-keeps :
      (s : S) (now : ℕ) (args : LedgerEntryArgs) (user : Text) (delta : ℤ)
      (o : Option (EventId × UsageEvent))
      → P s
      → P (after (post_found db config now args user delta o s) s)
  post_found-keeps s now args user delta (some (id, e)) h = h
  post_found-keeps s now args user delta none h =
      let ((id, row), t, made) =
        ensure_credits_row-returns db config s now user (lit "usage_event") in
      let kept = rw made at (ensure_credits_row-keeps s now user (lit "usage_event") h) in
      after-bind P (ensure_credits_row db config now user (lit "usage_event")) _ s s t (id, row)
        made (post_new-keeps t s now args user delta id row kept)

  pub post_ledger_entry-keeps :
      (s : S) (now : ℕ) (args : LedgerEntryArgs)
      → P s
      → P (after (post_ledger_entry db config now args s) s)
  unfolding post_ledger_entry
  post_ledger_entry-keeps s now args h =
      after-lift P (normalize_user_id args.user_id) _ s h λ user e.
        after-lift P (normalize_ledger_delta args.delta_cents) _ s h
          λ delta e'. post_found-keeps s now args user delta _ h

  pub grant_user_credits-keeps :
      (s : S) (now : ℕ) (args : CreditEventArgs)
      → P s
      → P (after (grant_user_credits db config now args s) s)
  unfolding grant_user_credits
  grant_user_credits-keeps s now args h =
      after-lift P (normalize_user_id args.user_id) _ s h λ user e.
        after-lift P (normalize_cents args.amount_cents) _ s h
          λ amount e'. post_ledger_entry-keeps s now (grant_entry args user amount) h

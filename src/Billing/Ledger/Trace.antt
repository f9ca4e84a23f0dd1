-- ===== src/Billing/Ledger/Trace.antt =====
-- Sequences of ledger operations, of any users.
use tahuna_oss.Common.{ℕ, ◌≡◌, refl, Bool, true, false, Option, none, some, List, [], ◌∷◌, All}
use tahuna_oss.Common.Int.{ℤ}
use tahuna_oss.Js.Text.{Text, lit, trim, is_empty, or_else}
use tahuna_oss.Mutation.{Result, ok, err, after, after-lift, after-throw_if, after-bind}
use tahuna_oss.Billing.Types.{BillingConfig, UsageEvent, LedgerDb}
use tahuna_oss.Billing.Credits.{
  CreditEventArgs, LedgerEntryArgs, DebitTotalArgs, normalize_user_id, normalize_ledger_delta,
  normalize_cents, normalize_optional_text, grant_entry, ensure_user_ledger, ensure_credits_row,
  post_found, find_usage_event, post_ledger_entry, grant_user_credits, upsert_ledger_debit_total,
}
use tahuna_oss.Billing.Ledger.{is_debit, Balanced}
use tahuna_oss.Billing.Ledger.Accounts.{
  Good, IsAllowed, ensure_credits_row-HasAccount, post_new-Good,
}
use tahuna_oss.Billing.Ledger.Debits.{debit_found-Good}

-- The operations that web/convex/cloud/credits.ts exports.
pub data LedgerCommand : Type 0 where
  ensure : ℕ → (user source : Text) → LedgerCommand
  post : ℕ → LedgerEntryArgs → LedgerCommand
  grant : ℕ → CreditEventArgs → LedgerCommand
  debit : ℕ → DebitTotalArgs → LedgerCommand

module _ {S CreditsId EventId : Type 0} (db : LedgerDb S CreditsId EventId)
    (config : BillingConfig) where
  unfoldable pub ledger_step : S → LedgerCommand → S
  ledger_step s (ensure now user source) = after (ensure_user_ledger db config now user source s) s
  ledger_step s (post now args) = after (post_ledger_entry db config now args s) s
  ledger_step s (grant now args) = after (grant_user_credits db config now args s) s
  ledger_step s (debit now args) = after (upsert_ledger_debit_total db config now args s) s

  unfoldable pub ledger_trace : S → List LedgerCommand → S
  ledger_trace s [] = s
  ledger_trace s (c ∷ cs) = ledger_trace (ledger_step s c) cs

module _ (is_debit_key : Text → Bool) {S CreditsId EventId : Type 0}
    (db : LedgerDb S CreditsId EventId) (config : BillingConfig) where
  abbrev pub AllowedDelta : Option Text → Result ℤ → Type 0
  AllowedDelta key (err e) = Unit
  AllowedDelta key (ok delta) = IsAllowed is_debit_key db config (normalize_optional_text key) delta

  -- The key of a debit is used for debits alone: an entry that adds credits has another key.
  abbrev pub KeepsKeys : LedgerCommand → Type 0
  KeepsKeys (ensure now user source) = Unit
  KeepsKeys (post now args) =
      AllowedDelta args.idempotency_key (normalize_ledger_delta args.delta_cents)
  KeepsKeys (grant now args) =
      is_debit is_debit_key (normalize_optional_text args.idempotency_key) ≡ false
  KeepsKeys (debit now args) = is_debit_key (trim args.idempotency_key) ≡ true

  abbrev Kept : S → Type 0
  Kept s = Good is_debit_key db config s

  ensure-Good :
      (s : S) (now : ℕ) (user source : Text)
      → Kept s
      → Kept (after (ensure_user_ledger db config now user source s) s)
  unfolding ensure_user_ledger
  ensure-Good s now user source b = after-lift Kept (normalize_user_id user) _ s b λ u e.
      let (found, t, done, account) =
        ensure_credits_row-HasAccount is_debit_key db config s now u
          (or_else (normalize_optional_text (some source)) (lit "system")) b in
      rw done account.1

  post_found-Good :
      (s : S) (now : ℕ) (args : LedgerEntryArgs) (user : Text) (delta : ℤ)
      (o : Option (EventId × UsageEvent))
      → IsAllowed is_debit_key db config (normalize_optional_text args.idempotency_key) delta
      → Kept s
      → Kept (after (post_found db config now args user delta o s) s)
  post_found-Good s now args user delta (some (id, e)) allowed b = b
  post_found-Good s now args user delta none allowed b =
      let ((id, row), t, done, account) =
        ensure_credits_row-HasAccount is_debit_key db config s now user (lit "usage_event") b in
      let (r, t', done', kept) =
        post_new-Good is_debit_key db config t now args user delta id row allowed account in
      after-bind Kept (ensure_credits_row db config now user (lit "usage_event")) _ s s t (id, row)
        done (rw done' kept)

  post-Good :
      (s : S) (now : ℕ) (args : LedgerEntryArgs)
      → KeepsKeys (post now args)
      → Kept s
      → Kept (after (post_ledger_entry db config now args s) s)
  unfolding post_ledger_entry
  post-Good s now args allowed b = after-lift Kept (normalize_user_id args.user_id) _ s b λ u e.
      after-lift Kept (normalize_ledger_delta args.delta_cents) _ s b λ delta e'.
        post_found-Good s now args u delta
          (find_usage_event db config u (normalize_optional_text args.idempotency_key) s)
          (rw e' at allowed) b

  grant-Good :
      (s : S) (now : ℕ) (args : CreditEventArgs)
      → KeepsKeys (grant now args)
      → Kept s
      → Kept (after (grant_user_credits db config now args s) s)
  unfolding grant_user_credits
  grant-Good s now args allowed b = after-lift Kept (normalize_user_id args.user_id) _ s b λ u e.
      after-lift Kept (normalize_cents args.amount_cents) _ s b λ amount e'.
        post-Good s now (grant_entry args u amount)
          (unfold normalize_ledger_delta in rw allowed refl) b

  debit-Good :
      (s : S) (now : ℕ) (args : DebitTotalArgs)
      → is_debit_key (trim args.idempotency_key) ≡ true
      → Kept s
      → Kept (after (upsert_ledger_debit_total db config now args s) s)
  unfolding upsert_ledger_debit_total
  debit-Good s now args mine b = after-lift Kept (normalize_user_id args.user_id) _ s b λ u e.
      after-throw_if Kept (is_empty (trim args.idempotency_key)) _ _ s b (
        let ((id, row), t, done, account) =
          ensure_credits_row-HasAccount is_debit_key db config s now u (lit "usage_event") b in
        let (r, t', done', kept) =
          debit_found-Good is_debit_key db config t now args u (trim args.idempotency_key) id row
            (find_usage_event db config u (some (trim args.idempotency_key)) t) mine refl account in
        after-bind Kept (ensure_credits_row db config now u (lit "usage_event")) _ s s t (id, row)
          done (rw done' kept))

  step-Good : (s : S) (c : LedgerCommand) → KeepsKeys c → Kept s → Kept (ledger_step db config s c)
  unfolding ledger_step
  step-Good s (ensure now user source) k b = ensure-Good s now user source b
  step-Good s (post now args) k b = post-Good s now args k b
  step-Good s (grant now args) k b = grant-Good s now args k b
  step-Good s (debit now args) k b = debit-Good s now args k b

  -- Over any sequence of ledger operations, of any users and failing ones included, the balance of
  -- every user stays the sum of the amounts of their events and never goes below zero, where no
  -- entry adds credits under the key of a debit.
  pub ledger_trace-Balanced :
      (s : S) (cs : List LedgerCommand)
      → All KeepsKeys cs
      → Balanced is_debit_key db s
      → Balanced is_debit_key db (ledger_trace db config s cs)
  unfolding ledger_trace
  ledger_trace-Balanced s [] k b = b
  ledger_trace-Balanced s (c ∷ cs) k b =
      ledger_trace-Balanced (ledger_step db config s c) cs k.1 (step-Good s c k.0 b)

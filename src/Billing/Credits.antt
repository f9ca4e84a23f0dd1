-- ===== src/Billing/Credits.antt =====
-- The ledger of credits, web/convex/cloud/credits.ts. `now` is `Date.now()`, which does not change
-- within a mutation. The totals that the callers debit are whole numbers. A key is trimmed once,
-- where the source trims it again before it looks for its event.
mod Entries
unfoldable pub use Entries.*
use tahuna_oss.Common.{
  ℕ, suc, ◌-◌, ◌/◌, Bool, true, false, not, ◌&&◌, ◌||◌, Option, none, some, List, [], ◌∷◌, ◌==◌,
  get_or, if◌then◌else◌,
}
use tahuna_oss.Common.Int.{ℤ, pos, neg_part, neg_ℕ, ltb_ℤ, eq_ℤ, min_ℤ, ◌+ℤ◌, ◌-ℤ◌}
use tahuna_oss.Js.Text.{Text, lit, trim, is_empty, text_eq, or_else}
use tahuna_oss.Js.Number.{Number, finite, negative, of_ℕ, floor_finite}
use tahuna_oss.Js.Json.{Json, Metadata}
use tahuna_oss.Mutation.{Result, ok, err, Mutation, ◌>>=◌, ◌>>◌, pure, throw_if, gets, lift}
use tahuna_oss.Billing.Types.{BillingConfig, CreditsRow, UsageEvent, EventPatch, LedgerDb}

module _ {S CreditsId EventId : Type 0} (db : LedgerDb S CreditsId EventId)
    (config : BillingConfig) where
  open db use {
    credits, events, get_credits, credits_id_text, insert_credits, patch_credits, insert_event,
    patch_event,
  }

  abbrev pub initial_balance : ℕ
  initial_balance = floor_finite config.initial_credit_cents

  abbrev pub initial_row : ℕ → Text → CreditsRow
  initial_row now user = record {
    user_id = user;
    balance_cents = pos initial_balance;
    currency = config.currency;
    updated_at = now;
  }

  abbrev pub initial_grant : ℕ → Text → Text → CreditsId → UsageEvent
  initial_grant now user source id = record {
    user_id = user;
    event_type = lit "initial_grant";
    credits_delta_cents = pos initial_balance;
    balance_after_cents = pos initial_balance;
    idempotency_key = none;
    reference_type = some (lit "user_credit");
    reference_id = some (credits_id_text id);
    metadata =
        some
          (("source", some (Json.str source)) ∷ ("currency", some (Json.str config.currency)) ∷ []);
    updated_at = now;
  }

  abbrev pub read_back : CreditsId → S → Option CreditsRow → Result ((CreditsId × CreditsRow) × S)
  read_back id s none = err (lit "failed to initialize user credits")
  read_back id s (some row) = ok ((id, row), s)

  -- The row of a user who had none.
  unfoldable pub create_credits_row : ℕ → Text → Text → Mutation S (CreditsId × CreditsRow)
  create_credits_row now user source s =
      let (t, id) = insert_credits s (initial_row now user) in
      let granted = (insert_event t (initial_grant now user source id)).0 in
      if initial_balance == 0
      then read_back id t (get_credits t id)
      else read_back id granted (get_credits granted id)

  abbrev pub ensure_found :
      ℕ → Text → Text → Option (CreditsId × CreditsRow) → Mutation S (CreditsId × CreditsRow)
  ensure_found now user source none = create_credits_row now user source
  ensure_found now user source (some found) = pure found

  unfoldable pub ensure_credits_row : ℕ → Text → Text → Mutation S (CreditsId × CreditsRow)
  ensure_credits_row now user source s = ensure_found now user source (credits s user) s

  abbrev pub find_usage_event : Text → Option Text → S → Option (EventId × UsageEvent)
  find_usage_event user none s = none
  find_usage_event user (some key) s = find_by_key key (events s user)

  -- An entry on the row of the user, where no event has its key.
  unfoldable pub post_new :
      ℕ
      → LedgerEntryArgs
      → Text
      → ℤ
      → CreditsId × CreditsRow
      → Mutation S (Option LedgerEntryResult)
  post_new now args user delta (id, row) s =
      if ltb_ℤ delta (pos 0) && ltb_ℤ row.balance_cents (pos (neg_part delta))
      then ok (none, s)
      else let balance = row.balance_cents +ℤ delta in
        let t =
          if eq_ℤ delta (pos 0)
          then s
          else patch_credits s id (record { balance_cents = balance; updated_at = now }) in
        ok (
          some (entry_result balance delta),
          (insert_event t (entry_event now args user delta balance)).0,
        )

  abbrev pub post_found :
      ℕ
      → LedgerEntryArgs
      → Text
      → ℤ
      → Option (EventId × UsageEvent)
      → Mutation S (Option LedgerEntryResult)
  post_found now args user delta none = do
    row ← ensure_credits_row now user (lit "usage_event")
    post_new now args user delta row
  post_found now args user delta (some (id, e)) = pure (
      some (record {
        balance_cents = e.balance_after_cents;
        applied = false;
        delta_cents = e.credits_delta_cents;
      }))

  unfoldable pub post_ledger_entry : ℕ → LedgerEntryArgs → Mutation S (Option LedgerEntryResult)
  post_ledger_entry now args = do
    user ← lift (normalize_user_id args.user_id)
    delta ← lift (normalize_ledger_delta args.delta_cents)
    existing ← gets (find_usage_event user (normalize_optional_text args.idempotency_key))
    post_found now args user delta existing

  -- `recordLedgerEvent`, whose amount is optional.
  unfoldable pub record_ledger_event :
      ℕ → Option Number → LedgerEntryArgs → Mutation S (Option LedgerEntryResult)
  record_ledger_event now delta args =
      post_ledger_entry now (record args { delta_cents = get_or delta (of_ℕ 0) })

  unfoldable pub ensure_user_ledger : ℕ → Text → Text → Mutation S (CreditsId × CreditsRow)
  ensure_user_ledger now user_id source = do
    user ← lift (normalize_user_id user_id)
    ensure_credits_row now user (or_else (normalize_optional_text (some source)) (lit "system"))

  unfoldable pub grant_user_credits : ℕ → CreditEventArgs → Mutation S (Option LedgerEntryResult)
  grant_user_credits now args = do
    user ← lift (normalize_user_id args.user_id)
    amount ← lift (normalize_cents args.amount_cents)
    post_ledger_entry now (grant_entry args user amount)

  abbrev pub write_debit :
      ℕ → DebitTotalArgs → Text → Text → Debit → Option (EventId × UsageEvent) → S → S
  write_debit now args user key d none s = (insert_event s (debit_event now args user key d)).0
  write_debit now args user key d (some (id, e)) s =
      if debit_differs args d e then patch_event s id (debit_patch now args d) else s

  unfoldable pub debit_found :
      ℕ
      → DebitTotalArgs
      → Text
      → Text
      → CreditsId × CreditsRow
      → Option (EventId × UsageEvent)
      → Mutation S DebitTotalResult
  unfolding plan_debit
  debit_found now args user key (id, row) existing s =
      let d = plan_debit args.target_debit_cents (existing_debit existing) row.balance_cents in
      let t =
        if ltb_ℤ (pos 0) d.applied_cents
        then patch_credits s id (record { balance_cents = d.balance_after_cents; updated_at = now })
        else s in
      ok (
        record {
          balance_cents = d.balance_after_cents;
          debited_cents = d.next_debited_cents;
          applied_cents = d.applied_cents;
        },
        write_debit now args user key d existing t,
      )

  unfoldable pub upsert_ledger_debit_total : ℕ → DebitTotalArgs → Mutation S DebitTotalResult
  upsert_ledger_debit_total now args = do
    user ← lift (normalize_user_id args.user_id)
    throw_if (is_empty (trim args.idempotency_key)) (lit "idempotency_key is required")
    row ← ensure_credits_row now user (lit "usage_event")
    existing ← gets (find_usage_event user (some (trim args.idempotency_key)))
    debit_found now args user (trim args.idempotency_key) row existing

-- ===== src/Billing/Ledger/Totals.antt =====
-- How much a debit up to a total takes: `upsertLedgerDebitTotal` of web/convex/cloud/credits.ts.
use tahuna_oss.Common.{
  ℕ, ◌+◌, ◌-◌, ◌≡◌, refl, sym, ◌∙◌, inl, inr, Bool, true, false, min, Option, none, some, List, [],
  ◌∷◌, ◌++◌, arith, Bool-cases, Option-cases, ◌==◌,
}
use tahuna_oss.Common.Int.{
  ℤ, pos, negsuc, pos_part, neg_part, ◌≤ℤ◌, eq_ℤ→eq, eq_of_parts, pos_add, neg_part-minus, int_laws,
}
use tahuna_oss.Js.Text.{Text, lit, trim, is_empty}
use tahuna_oss.Js.Number.{floor_finite}
use tahuna_oss.Js.TextLaws.{text_eq_refl}
use tahuna_oss.Mutation.{ok, bind-ok}
use tahuna_oss.Billing.Types.{BillingConfig, CreditsRow, UsageEvent, LedgerDb, patched_event}
use tahuna_oss.Billing.Credits.{
  DebitTotalArgs, DebitTotalResult, plan_debit, existing_debit, debit_event, debit_patch,
  debit_differs, debit_found, find_by_key, has_key, initial_row, initial_grant, create_credits_row,
  read_back, ensure_credits_row, normalize_user_id, upsert_ledger_debit_total,
}
use tahuna_oss.Billing.Ledger.{find_by_key-StandsIn, Balanced}
use tahuna_oss.Billing.Ledger.Accounts.{HasAccount, ensure_credits_row-HasAccount}
use tahuna_oss.Billing.Ledger.Debits.{
  pay, paid_row, pay-Writes, paid_balance, patch_debit-Writes, plan_debit-facts,
}
use tahuna_oss.Billing.Ledger.Repeats.{find_by_key-append_new, ensure_credits_row-KeepsEvents}

find_by_key-at :
    {EventId : Type 0} (key : Text) (es rest : List (EventId × UsageEvent)) (id : EventId)
    (e : UsageEvent)
    → has_key key e.idempotency_key ≡ true
    → find_by_key key es ≡ none
    → find_by_key key (es ++ (id, e) ∷ rest) ≡ some (id, e)
unfolding find_by_key
find_by_key-at key [] rest id e h k = rw h refl
find_by_key-at key ((i, d) ∷ es) rest id e h k = elim (Bool-cases (has_key key d.idempotency_key)) [
  | inl c ↦ cc (rw c at k)
  | inr c ↦ rw c (find_by_key-at key es rest id e h (rw c at k))
]

-- The amounts of a debit, over the natural numbers.
abbrev pub taken : ℕ → ℕ → ℕ → ℕ
taken target debited funds = min (target - debited) funds

plan_debit-taken :
    (target debited : ℕ) (balance : ℤ)
    → pos 0 ≤ℤ balance
    → let d = plan_debit target debited balance in
      let n = taken target debited (pos_part balance) in
      (d.applied_cents ≡ pos n)
      × (d.next_debited_cents ≡ pos (debited + n))
      × (d.balance_after_cents ≡ pos (pos_part balance - n))
      × (neg_part d.next_delta_cents ≡ debited + n)
unfolding plan_debit
plan_debit-taken target debited (pos b) h =
    let applied : (plan_debit target debited (pos b)).applied_cents ≡ pos (taken target debited b) =
      ground arith in
    (
      applied,
      rw applied (pos_add debited (taken target debited b)),
      rw applied (eq_of_parts _ _ (omega int_laws)),
      rw (applied, pos_add debited (taken target debited b)) (neg_part-minus _),
    )
plan_debit-taken target debited (negsuc m) h = ground arith

-- What was debited under a key, and what the user can spend.
module _ {S CreditsId EventId : Type 0} (db : LedgerDb S CreditsId EventId)
    (config : BillingConfig) where
  open db use {
    credits, events, insert_credits, patch_credits, insert_event, patch_event, get_credits,
    events-insert_credits, events-patch_credits, events-insert_event, events-patch_event,
    get-insert_credits, get-insert_event, credits-insert_event, credits-patch_event,
    credits-patch_credits, credits-insert_credits,
  }

  abbrev pub debited_under : Text → Text → S → ℕ
  debited_under user key s = existing_debit (find_by_key key (events s user))

  -- The balance, which is the initial one for a user who has no row yet.
  abbrev pub funds_of : Option (CreditsId × CreditsRow) → ℤ
  funds_of none = pos (floor_finite config.initial_credit_cents)
  funds_of (some (id, row)) = row.balance_cents

  abbrev pub funds : Text → S → ℤ
  funds user s = funds_of (credits s user)

  -- A debit to a total: what is under the key and what is left to spend, before and after.
  pub record DebitsTo (target debited : ℕ) (before after : ℤ) (r : DebitTotalResult) (total : ℕ)
      : Type 0 where
    pub grows : total ≡ debited + taken target debited (pos_part before)
    pub pays : after ≡ pos (pos_part before - taken target debited (pos_part before))
    pub reports_total : r.debited_cents ≡ pos total
    pub reports_applied : r.applied_cents ≡ pos (taken target debited (pos_part before))
    pub reports_balance : r.balance_cents ≡ after

  -- Of a result and the database after it.
  abbrev pub DebitDone : ℕ → ℕ → ℤ → Text → Text → DebitTotalResult → S → Type 0
  DebitDone target debited before user key r t =
      DebitsTo target debited before (funds user t) r (debited_under user key t)

  done_of_writes :
      (target debited : ℕ) (row row' : CreditsRow) (id : CreditsId) (user key : Text) (t : S)
      (i : EventId) (e : UsageEvent) (r : DebitTotalResult)
      → let d = plan_debit target debited row.balance_cents in
        pos 0 ≤ℤ row.balance_cents
        → credits t user ≡ some (id, row')
        → row'.balance_cents ≡ d.balance_after_cents
        → find_by_key key (events t user) ≡ some (i, e)
        → e.credits_delta_cents ≡ d.next_delta_cents
        → r ≡ record {
          balance_cents = d.balance_after_cents;
          debited_cents = d.next_debited_cents;
          applied_cents = d.applied_cents;
        }
        → DebitDone target debited row.balance_cents user key r t
  done_of_writes target debited row row' id user key t i e r nonneg has paid found delta same =
      let (applied, next, after, total) =
        plan_debit-taken target debited row.balance_cents nonneg in
      let now_debited : debited_under user key t
          ≡ debited + taken target debited (pos_part row.balance_cents) =
        rw (found, delta) total in
      record {
        grows = now_debited;
        pays = rw (has, paid) after;
        reports_total = rw (same, now_debited) next;
        reports_applied = rw same applied;
        reports_balance = rw (same, has, paid) refl;
      }

module _ (is_debit_key : Text → Bool) {S CreditsId EventId : Type 0}
    (db : LedgerDb S CreditsId EventId) (config : BillingConfig) where
  open db use {
    credits, events, patch_event, insert_event, events-insert_event, credits-insert_event,
    insert_credits, get-insert_credits, get-insert_event,
  }

  debit_found-DebitDone :
      (s : S) (now : ℕ) (args : DebitTotalArgs) (user key : Text) (id : CreditsId)
      (row : CreditsRow) (o : Option (EventId × UsageEvent))
      → find_by_key key (events s user) ≡ o
      → HasAccount is_debit_key db config s user (id, row)
      → (r : DebitTotalResult) × (t : S) × (debit_found db config now args user key (id, row) o s
          ≡ ok (r, t))
        × DebitDone db config args.target_debit_cents
            (existing_debit o)
            row.balance_cents
            user
            key
            r
            t
  unfolding debit_found
  debit_found-DebitDone s now args user key id row none found (h, b) =
      let nonneg = (rw h at (b user)).nonnegative in
      let d = plan_debit args.target_debit_cents 0 row.balance_cents in
      let t = pay is_debit_key db config now d id s in
      let e = debit_event now args user key d in
      let (w0, w1) = pay-Writes is_debit_key db config s now user d id row h user in
      let w0' = rw (text_eq_refl user) at w0 in
      let w1' = rw (text_eq_refl user) at w1 in
      (
        _,
        (insert_event t e).0,
        refl,
        done_of_writes db config args.target_debit_cents 0 row
            (paid_row is_debit_key db config now d row) id user key _ (insert_event t e).1 e _
            nonneg (credits-insert_event t e user ∙ w0')
            (paid_balance is_debit_key db config now 0 d row
              (plan_debit-facts args.target_debit_cents 0 row.balance_cents nonneg))
            (rw (events-insert_event t e user, text_eq_refl user, w1')
              (find_by_key-append_new key (events s user) (insert_event t e).1 e (text_eq_refl key)
                found))
            refl refl,
      )
  debit_found-DebitDone s now args user key id row (some (i, e)) found (h, b) =
      let nonneg = (rw h at (b user)).nonnegative in
      let target = args.target_debit_cents in
      let debited = neg_part e.credits_delta_cents in
      let d = plan_debit target debited row.balance_cents in
      let t = pay is_debit_key db config now d id s in
      let w = pay-Writes is_debit_key db config s now user d id row h in
      let (w0, w1) = w user in
      let (es, rest, split, has, first) = find_by_key-StandsIn key (events s user) i e found in
      let row' = paid_row is_debit_key db config now d row in
      let same =
        paid_balance is_debit_key db config now debited d row
          (plan_debit-facts target debited row.balance_cents nonneg) in
      let e' = patched_event (debit_patch now args d) e in
      let (p0, p1) =
        patch_debit-Writes is_debit_key db config s t now args user (id, row') d es rest i e split w
          user in
      elim (Bool-cases (debit_differs args d e)) [
        | inl k ↦ (
          _,
          patch_event t i (debit_patch now args d),
          rw k refl,
          done_of_writes db config target debited row row' id user key _ i e' _ nonneg
              (rw (text_eq_refl user) at p0) same
              (rw (p1, text_eq_refl user) (find_by_key-at key es rest i e' has first)) refl refl,
        )
        | inr k ↦ (
          _,
          t,
          rw k refl,
          done_of_writes db config target debited row row' id user key _ i e _ nonneg
              (rw (text_eq_refl user) at w0) same (rw (w1, text_eq_refl user) found)
              (eq_ℤ→eq e.credits_delta_cents d.next_delta_cents (ground arith)) refl,
        )
      ]

  read_back-row :
      (s t : S) (id id' : CreditsId) (row row' : CreditsRow)
      → read_back db config id s (some row) ≡ ok ((id', row'), t)
      → row ≡ row'
  read_back-row s t id id' row row' h = cc h

  create_credits_row-funds :
      (s t : S) (now : ℕ) (user source : Text) (id : CreditsId) (row : CreditsRow)
      → create_credits_row db config now user source s ≡ ok ((id, row), t)
      → row.balance_cents ≡ pos (floor_finite config.initial_credit_cents)
  unfolding create_credits_row
  create_credits_row-funds s t now user source id row made =
      let first = initial_row db config now user in
      let (s', i) = insert_credits s first in
      let grant = initial_grant db config now user source i in
      let same : first ≡ row = elim (Bool-cases (floor_finite config.initial_credit_cents == 0)) [
        | inl none_given ↦
            read_back-row s' t i id first row (rw (none_given, get-insert_credits s first) at made)
        | inr given ↦
            read_back-row (insert_event s' grant).0 t i id first row
              (rw (given, get-insert_event s' grant i, get-insert_credits s first) at made)
      ] in
      rw (sym same) refl

  pub ensure_credits_row-funds :
      (s t : S) (now : ℕ) (user source : Text) (id : CreditsId) (row : CreditsRow)
      → ensure_credits_row db config now user source s ≡ ok ((id, row), t)
      → row.balance_cents ≡ funds db config user s
  unfolding ensure_credits_row
  ensure_credits_row-funds s t now user source id row made = elim (Option-cases (credits s user)) [
    | inl h ↦ rw h (create_credits_row-funds s t now user source id row (rw h at made))
    | inr (found, h) ↦ let same : found ≡ (id, row) = cc (rw h at made) in rw (h, same) refl
  ]

  -- In a balanced ledger a debit up to a total succeeds. Under its key stands then what was debited
  -- before and as much of the rest as the user can pay, and the balance is less by that amount. The
  -- result reports these three amounts.
  pub upsert_ledger_debit_total_lem :
      (s : S) (now : ℕ) (args : DebitTotalArgs) (user key : Text)
      → normalize_user_id args.user_id ≡ ok user
      → trim args.idempotency_key ≡ key
      → is_empty key ≡ false
      → Balanced is_debit_key db s
      → (r : DebitTotalResult) × (t : S) × (upsert_ledger_debit_total db config now args s
          ≡ ok (r, t))
        × DebitDone db config args.target_debit_cents
            (debited_under db config user key s)
            (funds db config user s)
            user
            key
            r
            t
  unfolding upsert_ledger_debit_total
  upsert_ledger_debit_total_lem s now args user key u k nonempty b =
      let ((id, row), s', made, account) =
        ensure_credits_row-HasAccount is_debit_key db config s now user (lit "usage_event") b in
      let kept =
        rw made at (ensure_credits_row-KeepsEvents db config s now user (lit "usage_event") key) in
      let (r, t, done, facts) =
        debit_found-DebitDone s' now args user key id row (find_by_key key (events s' user)) refl
          account in
      let before = ensure_credits_row-funds s s' now user (lit "usage_event") id row made in
      (
        r,
        t,
        rw (u, k, nonempty)
            (bind-ok (ensure_credits_row db config now user (lit "usage_event")) _ s s' (id, row)
                made
              ∙ done),
        rw (sym before, sym kept) facts,
      )

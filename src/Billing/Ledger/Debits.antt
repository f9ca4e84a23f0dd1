-- ===== src/Billing/Ledger/Debits.antt =====
-- A debit up to a total: `upsertLedgerDebitTotal` of web/convex/cloud/credits.ts.
use tahuna_oss.Common.{
  ℕ, ◌≤◌, ◌≡◌, refl, sym, ap, ◌∙◌, inl, inr, Bool, true, false, Option, none, some, List, [], ◌∷◌,
  ◌++◌, arith, All, Bool-cases, if◌then◌else◌,
}
use tahuna_oss.Common.Int.{
  ℤ, pos, pos_part, neg_part, ◌+ℤ◌, ◌-ℤ◌, ◌≤ℤ◌, ltb_ℤ, eq_ℤ, eq_ℤ→eq, eq_of_parts, +ℤ_parts,
  -ℤ_parts, int_laws,
}
use tahuna_oss.Js.Text.{Text, text_eq}
use tahuna_oss.Js.TextLaws.{text_eq→eq, text_eq_refl}
use tahuna_oss.Mutation.{ok}
use tahuna_oss.Billing.Types.{
  BillingConfig, CreditsRow, CreditsPatch, UsageEvent, patched_credits, patched_event, LedgerDb,
}
use tahuna_oss.Billing.Credits.{
  DebitTotalArgs, DebitTotalResult, Debit, plan_debit, debit_event, debit_patch, debit_differs,
  debit_found, write_debit, find_by_key, has_key,
}
use tahuna_oss.Billing.Ledger.{
  sum_deltas, sum_deltas-replace, find_by_key-StandsIn, is_debit, takes, Balanced, Writes,
  Writes-Balanced,
}
use tahuna_oss.Billing.Ledger.Accounts.{
  insert_event-Writes, patch_credits-Writes, none-Writes, append-UserBalanced, HasAccount,
}

All-replace {ℓ κ} :
    {A : Type ℓ} (P : A → Type κ) (xs ys : List A) (a b : A)
    → P b
    → All P (xs ++ a ∷ ys)
    → All P (xs ++ b ∷ ys)
All-replace P [] ys a b p h = (p, h.1)
All-replace P (x ∷ xs) ys a b p h = (h.0, All-replace P xs ys a b p h.1)

All-at {ℓ κ} : {A : Type ℓ} (P : A → Type κ) (xs ys : List A) (a : A) → All P (xs ++ a ∷ ys) → P a
All-at P [] ys a h = h.0
All-at P (x ∷ xs) ys a h = All-at P xs ys a h.1

-- What the numbers of a debit satisfy, for a balance that is not negative.
pub record DebitFacts (debited : ℕ) (balance : ℤ) (d : Debit) : Type 0 where
  pub applies : pos 0 ≤ℤ d.applied_cents
  pub covered : pos 0 ≤ℤ d.balance_after_cents
  pub pays : d.balance_after_cents ≡ balance -ℤ d.applied_cents
  pub totals : d.next_debited_cents ≡ pos debited +ℤ d.applied_cents
  pub records : d.next_delta_cents ≡ pos 0 -ℤ d.next_debited_cents

pub plan_debit-facts :
    (target debited : ℕ) (balance : ℤ)
    → pos 0 ≤ℤ balance
    → DebitFacts debited balance (plan_debit target debited balance)
unfolding plan_debit
plan_debit-facts target debited balance h = record {
  applies = ground arith;
  covered = ground (arith, -ℤ_parts balance (plan_debit target debited balance).applied_cents);
  pays = refl;
  totals = refl;
  records = refl;
}

-- A debit does not add credits.
debit_takes :
    (debited : ℕ) (balance : ℤ) (d : Debit)
    → DebitFacts debited balance d
    → ltb_ℤ (pos 0) d.next_delta_cents ≡ false
debit_takes debited balance d f =
    rw (f.records, f.totals)
      (ground (
        arith,
        f.applies,
        +ℤ_parts (pos debited) d.applied_cents,
        -ℤ_parts (pos 0) (pos debited +ℤ d.applied_cents),
      ))

debit_sums :
    (balance delta : ℤ) (d : Debit)
    → DebitFacts (neg_part delta) balance d
    → ltb_ℤ (pos 0) delta ≡ false
    → d.balance_after_cents ≡ balance +ℤ (d.next_delta_cents -ℤ delta)
debit_sums balance delta d f h =
    let low : pos_part delta ≡ 0 = ground arith in
    rw (f.pays, f.records, f.totals) (omega (int_laws, low))

-- A debit that leaves the amount of its event as it was applies nothing.
nothing_applied :
    (balance delta : ℤ) (d : Debit)
    → DebitFacts (neg_part delta) balance d
    → ltb_ℤ (pos 0) delta ≡ false
    → eq_ℤ delta d.next_delta_cents ≡ true
    → ltb_ℤ (pos 0) d.applied_cents ≡ false
nothing_applied balance delta d f h e =
    let low : pos_part delta ≡ 0 = ground arith in
    let same : delta ≡ pos 0 -ℤ (pos (neg_part delta) +ℤ d.applied_cents) =
      eq_ℤ→eq delta d.next_delta_cents e ∙ rw (f.records, f.totals) refl in
    let parts : pos_part d.applied_cents ≤ neg_part d.applied_cents =
      omega (int_laws, ap pos_part same, ap neg_part same, low) in
    ground arith

is_debit_of_key :
    (is_debit_key : Text → Bool) (o : Option Text) (key : Text)
    → has_key key o ≡ true
    → is_debit_key key ≡ true
    → is_debit is_debit_key o ≡ true
is_debit_of_key is_debit_key none key h m = cc
is_debit_of_key is_debit_key (some k) key h m = ap is_debit_key (sym (text_eq→eq key k h)) ∙ m

module _ (is_debit_key : Text → Bool) {S CreditsId EventId : Type 0}
    (db : LedgerDb S CreditsId EventId) (config : BillingConfig) where
  open db use {
    credits, events, patch_credits, insert_event, patch_event, events-patch_event,
    credits-patch_event,
  }

  abbrev pub credits_patch : ℕ → Debit → CreditsPatch
  credits_patch now d = record { balance_cents = d.balance_after_cents; updated_at = now }

  -- The first write: the balance.
  abbrev pub pay : ℕ → Debit → CreditsId → S → S
  pay now d id s =
      if ltb_ℤ (pos 0) d.applied_cents then patch_credits s id (credits_patch now d) else s

  abbrev pub paid_row : ℕ → Debit → CreditsRow → CreditsRow
  paid_row now d row =
      if ltb_ℤ (pos 0) d.applied_cents then patched_credits (credits_patch now d) row else row

  pub pay-Writes :
      (s : S) (now : ℕ) (user : Text) (d : Debit) (id : CreditsId) (row : CreditsRow)
      → credits s user ≡ some (id, row)
      → Writes is_debit_key db s
          (pay now d id s)
          user
          (some (id, paid_row now d row))
          (events s user)
  pay-Writes s now user d id row h = elim (Bool-cases (ltb_ℤ (pos 0) d.applied_cents)) [
    | inl k ↦
        rw k (patch_credits-Writes is_debit_key db config s user id row (credits_patch now d) h)
    | inr k ↦ rw k (none-Writes is_debit_key db config s user (some (id, row)) h)
  ]

  pub paid_balance :
      (now debited : ℕ) (d : Debit) (row : CreditsRow)
      → DebitFacts debited row.balance_cents d
      → (paid_row now d row).balance_cents ≡ d.balance_after_cents
  paid_balance now debited d row f = elim (Bool-cases (ltb_ℤ (pos 0) d.applied_cents)) [
    | inl k ↦ rw k refl
    | inr k ↦ rw k (
        rw f.pays
          (eq_of_parts _ _ (ground (arith, f.applies, -ℤ_parts row.balance_cents d.applied_cents))))
  ]

  -- The second write, where no event has the key.
  insert_debit-Good :
      (s : S) (now : ℕ) (args : DebitTotalArgs) (user key : Text) (id : CreditsId)
      (row : CreditsRow) (d : Debit)
      → DebitFacts 0 row.balance_cents d
      → HasAccount is_debit_key db config s user (id, row)
      → Balanced is_debit_key db (write_debit db config now args user key d none (pay now d id s))
  insert_debit-Good s now args user key id row d f (h, b) =
      let e = debit_event now args user key d in
      let t = pay now d id s in
      let account = rw h at (b user) in
      let same = paid_balance now 0 d row f in
      let tk = debit_takes 0 row.balance_cents d f in
      Writes-Balanced is_debit_key db s (insert_event t e).0 user (some (id, paid_row now d row)) _
        b
        (insert_event-Writes is_debit_key db config s t user (some (id, paid_row now d row))
          (events s user) e refl (pay-Writes s now user d id row h))
        (append-UserBalanced is_debit_key db config (some (id, row)) (some (id, paid_row now d row))
          (events s user) _ e (ground arith)
          (same ∙ rw (f.pays, f.records, f.totals) (omega int_laws)) (rw same f.covered) account)

  pub patch_debit-Writes :
      (s t : S) (now : ℕ) (args : DebitTotalArgs) (user : Text) (row : CreditsId × CreditsRow)
      (d : Debit) (es rest : List (EventId × UsageEvent)) (i : EventId) (e : UsageEvent)
      → events s user ≡ es ++ (i, e) ∷ rest
      → Writes is_debit_key db s t user (some row) (events s user)
      → Writes is_debit_key db s
          (patch_event t i (debit_patch now args d))
          user
          (some row)
          (es ++ (i, patched_event (debit_patch now args d) e) ∷ rest)
  patch_debit-Writes s t now args user row d es rest i e split w u =
      let p = debit_patch now args d in
      let own = (w user).1 ∙ rw (text_eq_refl user) split in
      let there = events-patch_event t user es rest i e p u own in
      elim (Bool-cases (text_eq user u)) [
        | inl k ↦ (credits-patch_event t i p u ∙ (w u).0, there ∙ rw k refl)
        | inr k ↦ (credits-patch_event t i p u ∙ (w u).0, there ∙ rw ((w u).1, k) refl)
      ]

  -- The second write, to the event that has the key.
  patch_debit-Good :
      (s : S) (now : ℕ) (args : DebitTotalArgs) (user key : Text) (id : CreditsId)
      (row : CreditsRow) (d : Debit) (es rest : List (EventId × UsageEvent)) (i : EventId)
      (e : UsageEvent)
      → DebitFacts (neg_part e.credits_delta_cents) row.balance_cents d
      → HasAccount is_debit_key db config s user (id, row)
      → events s user ≡ es ++ (i, e) ∷ rest
      → ltb_ℤ (pos 0) e.credits_delta_cents ≡ false
      → Balanced is_debit_key db
          (write_debit db config now args user key d (some (i, e)) (pay now d id s))
  patch_debit-Good s now args user key id row d es rest i e f (h, b) split takes_e =
      let p = debit_patch now args d in
      let t = pay now d id s in
      let account = rw h at (b user) in
      let same = paid_balance now (neg_part e.credits_delta_cents) d row f in
      let tk = debit_takes (neg_part e.credits_delta_cents) row.balance_cents d f in
      let total = account.sums ∙ ap sum_deltas split in
      elim (Bool-cases (debit_differs args d e)) [
        | inl k ↦ rw k (
            Writes-Balanced is_debit_key db s (patch_event t i p) user
              (some (id, paid_row now d row)) _ b
              (patch_debit-Writes s t now args user (id, paid_row now d row) d es rest i e split
                (pay-Writes s now user d id row h))
              (record {
                sums =
                    same
                    ∙ debit_sums row.balance_cents e.credits_delta_cents d f takes_e
                    ∙ ap (λ x. x +ℤ (d.next_delta_cents -ℤ e.credits_delta_cents)) total
                    ∙ sym (sum_deltas-replace es rest i e (patched_event p e));
                nonnegative = rw same f.covered;
                taking =
                    All-replace (λ q. takes is_debit_key q.1 ≡ true) es rest (i, e)
                      (i, patched_event p e) (ground arith) (rw split at account.taking);
              }))
        | inr k ↦
            rw
              (
                k,
                nothing_applied row.balance_cents e.credits_delta_cents d f takes_e (ground arith),
              )
              b
      ]

  debit_takes_found :
      (s : S) (user key : Text) (row : Option (CreditsId × CreditsRow))
      (es rest : List (EventId × UsageEvent)) (i : EventId) (e : UsageEvent)
      → is_debit_key key ≡ true
      → has_key key e.idempotency_key ≡ true
      → All (λ q. takes is_debit_key q.1 ≡ true) (es ++ (i, e) ∷ rest)
      → ltb_ℤ (pos 0) e.credits_delta_cents ≡ false
  debit_takes_found s user key row es rest i e mine has all =
      let here = All-at (λ q. takes is_debit_key q.1 ≡ true) es rest (i, e) all in
      let kept = is_debit_of_key is_debit_key e.idempotency_key key has mine in ground arith

  -- A debit under the key of a debit keeps the ledger balanced, and does not fail.
  pub debit_found-Good :
      (s : S) (now : ℕ) (args : DebitTotalArgs) (user key : Text) (id : CreditsId)
      (row : CreditsRow) (o : Option (EventId × UsageEvent))
      → is_debit_key key ≡ true
      → find_by_key key (events s user) ≡ o
      → HasAccount is_debit_key db config s user (id, row)
      → (r : DebitTotalResult) × (t : S) × (debit_found db config now args user key (id, row) o s
          ≡ ok (r, t))
        × Balanced is_debit_key db t
  unfolding debit_found
  debit_found-Good s now args user key id row none mine found account =
      let enough = (rw account.0 at (account.1 user)).nonnegative in
      let f = plan_debit-facts args.target_debit_cents 0 row.balance_cents enough in
      (_, _, refl, insert_debit-Good s now args user key id row _ f account)
  debit_found-Good s now args user key id row (some (i, e)) mine found account =
      let b = rw account.0 at (account.1 user) in
      let f =
        plan_debit-facts args.target_debit_cents (neg_part e.credits_delta_cents) row.balance_cents
          b.nonnegative in
      let (es, rest, split, has, first) = find_by_key-StandsIn key (events s user) i e found in
      (
        _,
        _,
        refl,
        patch_debit-Good s now args user key id row _ es rest i e f account split (
            debit_takes_found s user key (some (id, row)) es rest i e mine has
              (rw split at b.taking)),
      )

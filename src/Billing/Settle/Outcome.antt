-- ===== src/Billing/Settle/Outcome.antt =====
-- What a settlement comes to: `settleComputeCharge` of web/convex/cloud/runBilling.ts.
use tahuna_oss.Common.{
  ℕ, suc, ◌+◌, ◌-◌, ◌≡◌, refl, sym, ap, ◌∙◌, inl, inr, Bool, false, min, Option, none, some, ◌++◌,
  ltb, arith, is_some, Bool-cases, if◌then◌else◌,
}
use tahuna_oss.Common.Int.{ℤ, pos, pos_part, ◌+ℤ◌, ◌-ℤ◌, ◌≤ℤ◌, pos_add, pos_part-minus}
use tahuna_oss.Js.Text.{Text, lit, trim, is_space, is_empty}
use tahuna_oss.Js.Number.{Number}
use tahuna_oss.Js.TextLaws.{trim-not_empty}
use tahuna_oss.Mutation.{Result, ok, bind-ok, ◌>>=◌}
use tahuna_oss.Billing.Types.{BillingConfig, LedgerDb}
use tahuna_oss.Billing.Credits.{
  DebitTotalResult, post_ledger_entry, grant_user_credits, upsert_ledger_debit_total,
  normalize_user_id,
}
use tahuna_oss.Billing.Ledger.{Balanced}
use tahuna_oss.Billing.Ledger.Returns.{
  normalize_ledger_delta-of_ℕ, post_ledger_entry-Accepts, grant_user_credits-Accepts,
}
use tahuna_oss.Billing.Ledger.Totals.{taken, debited_under, funds, upsert_ledger_debit_total_lem}
use tahuna_oss.Billing.Pricing.{
  Fraction, Prices, estimate_run_usage_from_hourly_rate_cents, stored_cents,
}
use tahuna_oss.Billing.Settle.{
  ReferenceType, run, compute_session, reference_type_text, ComputeBillingSubject, ChargeStatus,
  charged, ComputeSettlementResult, compute_live_debit_idempotency_key, settlement_debit,
  owed_entry, refund_grant, paid, still_owed, no_more_than, settle_debited, settle_refunded,
  settle_at_rate, settle_compute_charge, resolve_compute_subject_hourly_rate_cents,
}

-- The key of a live debit is not empty.
pub live_debit_key-not_empty :
    (reference_type : ReferenceType) (reference_id : Text)
    → is_empty (trim (compute_live_debit_idempotency_key reference_type reference_id)) ≡ false
unfolding compute_live_debit_idempotency_key reference_type_text lit is_space
live_debit_key-not_empty run id =
    trim-not_empty 114 (lit "un" ++ lit ":" ++ id ++ lit ":live_debit") refl
live_debit_key-not_empty compute_session id =
    trim-not_empty 99 (lit "ompute_session" ++ lit ":" ++ id ++ lit ":live_debit") refl

-- The parts of a charge: what is collected and what is outstanding make it up, and it is owed
-- exactly where something is outstanding.
pub record AddsUp (charge : ℕ) (r : ComputeSettlementResult) : Type 0 where
  pub of_charge : r.charge_cents ≡ charge
  pub parts : pos charge ≡ r.collected_cents +ℤ pos r.outstanding_cents
  pub collects : pos 0 ≤ℤ r.collected_cents
  pub status : r.charge_status ≡ (if ltb 0 r.outstanding_cents then ChargeStatus.owed else charged)
  pub error : is_some r.charge_error ≡ ltb 0 r.outstanding_cents

pub collected_parts :
    (charge total : ℕ)
    → let c = no_more_than charge (pos total) in
      (c ≡ pos (min charge total)) × (pos_part (pos charge -ℤ c) ≡ charge - min charge total)
collected_parts charge total =
    let c : no_more_than charge (pos total) ≡ pos (min charge total) = ground arith in
    (c, rw c (pos_part-minus charge (min charge total)))

paid-AddsUp :
    (charge : ℕ) (delta : ℤ) (balance : Option ℤ) (duration : Number) (rate : Fraction)
    → AddsUp charge (paid charge delta balance (pos charge) duration rate)
paid-AddsUp charge delta balance duration rate = record {
  of_charge = refl;
  parts = sym (pos_add charge 0 ∙ ap pos (omega arith));
  collects = omega arith;
  status = refl;
  error = refl;
}

module _ {S CreditsId EventId : Type 0} (db : LedgerDb S CreditsId EventId) (config : BillingConfig)
    (prices : Prices) where
  -- The settlement returns, with this much collected.
  abbrev Collects : ℕ → ℕ → Result (ComputeSettlementResult × S) → Type 0
  Collects charge collected m =
      (r : ComputeSettlementResult) × (t : S) × (m ≡ ok (r, t))
      × AddsUp charge r
      × (r.collected_cents ≡ pos collected)

  settle_debited-Collects :
      (s : S) (now : ℕ) (subject : ComputeBillingSubject) (user : Text) (charge : ℕ) (delta : ℤ)
      (duration : Number) (rate : Fraction) (debited : DebitTotalResult) (total : ℕ)
      → normalize_user_id subject.user_id ≡ ok user
      → debited.debited_cents ≡ pos total
      → Collects charge
          (min charge total)
          (settle_debited db config prices now subject charge delta duration rate debited s)
  unfolding settle_debited
  settle_debited-Collects s now subject user charge delta duration rate debited total u d =
      let (c, o) = collected_parts charge total in
      let entry =
        owed_entry subject charge (pos (min charge total)) (charge - min charge total) duration
          rate in
      elim (Bool-cases (ltb 0 (charge - min charge total))) [
        | inl short ↦
            let (e, t, done) =
              post_ledger_entry-Accepts db config s now entry user 0 u
                (normalize_ledger_delta-of_ℕ 0) in
            (
              still_owed charge delta (pos (min charge total)) (charge - min charge total) duration
                  rate,
              t,
              rw (d, o, c, short)
                  (bind-ok (post_ledger_entry db config now entry) _ s t (some e) done),
              record {
                of_charge = refl;
                parts =
                    sym (
                      pos_add (min charge total) (charge - min charge total)
                      ∙ ap pos (omega arith));
                collects = omega arith;
                status = rw short refl;
                error = rw short refl;
              },
              refl,
            )
        | inr full ↦
            let all : min charge total ≡ charge = ground arith in
            (
              paid charge delta (some debited.balance_cents) (pos charge) duration rate,
              s,
              rw (d, o, c, full, all) refl,
              paid-AddsUp charge delta (some debited.balance_cents) duration rate,
              ap pos (sym all),
            )
      ]

  refunded-Collects :
      (s : S) (now : ℕ) (subject : ComputeBillingSubject) (user : Text) (charge n : ℕ) (delta : ℤ)
      (duration : Number) (rate : Fraction)
      → normalize_user_id subject.user_id ≡ ok user
      → Collects charge charge (
          (grant_user_credits db config now (refund_grant subject charge (suc n) duration rate)
              >>= settle_refunded db config prices charge delta duration rate)
            s)
  refunded-Collects s now subject user charge n delta duration rate u =
      let grant = refund_grant subject charge (suc n) duration rate in
      let (e, t, done) = grant_user_credits-Accepts db config s now grant user n u refl in
      (
        paid charge delta (some e.balance_cents) (pos charge) duration rate,
        t,
        bind-ok (grant_user_credits db config now grant) _ s t (some e) done,
        paid-AddsUp charge delta (some e.balance_cents) duration rate,
        refl,
      )

  -- What the user has paid for a subject once it is debited up to a charge.
  abbrev pub total_debited : ComputeBillingSubject → Text → ℕ → S → ℕ
  total_debited subject user charge s =
      let key =
        trim (compute_live_debit_idempotency_key subject.reference_type subject.reference_id) in
      let debited = debited_under db config user key s in
      debited + taken charge debited (pos_part (funds db config user s))

  -- What a settlement collects of a charge: the whole of it, if this much was collected before, and
  -- otherwise as much as the user has paid or can pay.
  abbrev pub collected_of : ComputeBillingSubject → Text → ℕ → S → ℕ
  collected_of subject user charge s =
      if ltb (stored_cents subject.compute_collected_cents) charge
      then min charge (total_debited subject user charge s)
      else charge

  module _ (is_debit_key : Text → Bool) where
    settle_at_rate-Collects :
        (s : S) (now : ℕ) (subject : ComputeBillingSubject) (user : Text) (duration : Number)
        (rate : Fraction)
        → normalize_user_id subject.user_id ≡ ok user
        → Balanced is_debit_key db s
        → let charge = estimate_run_usage_from_hourly_rate_cents rate (some duration) in
          Collects charge
            (collected_of subject user charge s)
            (settle_at_rate db config prices now subject duration rate s)
    unfolding settle_at_rate
    settle_at_rate-Collects s now subject user duration rate u b =
        let charge = estimate_run_usage_from_hourly_rate_cents rate (some duration) in
        let before = stored_cents subject.compute_collected_cents in
        let debit = settlement_debit subject charge duration rate in
        elim (Bool-cases (ltb before charge)) [
          | inl more ↦
              let (d, s', debited, facts) =
                upsert_ledger_debit_total_lem is_debit_key db config s now debit user
                  (trim debit.idempotency_key) u refl
                  (live_debit_key-not_empty subject.reference_type subject.reference_id) b in
              let total = facts.reports_total ∙ ap pos facts.grows in
              let (r, t, done, adds, collected) =
                settle_debited-Collects s' now subject user charge (pos charge -ℤ pos before)
                  duration rate d (total_debited subject user charge s) u total in
              (
                r,
                t,
                rw more (
                    bind-ok (upsert_ledger_debit_total db config now debit) _ s s' d debited
                    ∙ done),
                adds,
                rw more collected,
              )
          | inr enough ↦ elim (Bool-cases (ltb charge before)) [
            | inl less ↦
                let over : before - charge ≡ suc (before - charge - 1) = ground arith in
                rw (enough, less, over)
                  (refunded-Collects s now subject user charge (before - charge - 1)
                    (pos charge -ℤ pos before) duration rate u)
            | inr same ↦ (
              paid charge (pos 0) none (pos charge) duration rate,
              s,
              rw (enough, same) refl,
              paid-AddsUp charge (pos 0) none duration rate,
              rw enough refl,
            )
          ]
        ]

    -- In a balanced ledger the settlement of a subject whose rate is known returns: its charge is the
    -- cost of the duration, what it collects and what stays outstanding add up to the charge, it is
    -- owed exactly if something stays outstanding, and it collects what `collected_of` says.
    pub settle_compute_charge_lem :
        (s : S) (now : ℕ) (subject : ComputeBillingSubject) (user : Text) (duration : Number)
        (rate : Fraction)
        → normalize_user_id subject.user_id ≡ ok user
        → resolve_compute_subject_hourly_rate_cents prices subject ≡ ok rate
        → Balanced is_debit_key db s
        → let charge = estimate_run_usage_from_hourly_rate_cents rate (some duration) in
          (r : ComputeSettlementResult) × (t : S) × (settle_compute_charge db config prices now
              subject duration s
            ≡ ok (r, t))
          × AddsUp charge r
          × (r.collected_cents ≡ pos (collected_of subject user charge s))
    unfolding settle_compute_charge
    settle_compute_charge_lem s now subject user duration rate u known b =
        rw known (settle_at_rate-Collects s now subject user duration rate u b)

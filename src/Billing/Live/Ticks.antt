-- ===== src/Billing/Live/Ticks.antt =====
-- What a tick of the live billing collects, against the settlement: `billLiveComputeSubject` of
-- web/convex/cloud/billing.ts.
use tahuna_oss.Common.{
  ℕ, zero, ◌-◌, ◌≤◌, ◌<◌, ◌≡◌, refl, ap, ◌∙◌, inl, inr, Bool, false, some, min, ltb, ◌==◌, arith,
  Bool-cases, if◌then◌else◌,
}
use tahuna_oss.Common.Int.{pos}
use tahuna_oss.Js.Text.{Text, trim}
use tahuna_oss.Js.Number.{Number, of_ℕ, floor_finite}
use tahuna_oss.Mutation.{ok, bind-ok}
use tahuna_oss.Billing.Types.{BillingConfig, LedgerDb}
use tahuna_oss.Billing.Credits.{normalize_user_id, upsert_ledger_debit_total}
use tahuna_oss.Billing.Ledger.{Balanced}
use tahuna_oss.Billing.Ledger.Totals.{upsert_ledger_debit_total_lem}
use tahuna_oss.Billing.Pricing.{
  Fraction, Prices, estimate_run_usage_from_hourly_rate_cents, stored_cents,
}
use tahuna_oss.Billing.Settle.{
  ComputeBillingSubject, ComputeSettlementResult, resolve_compute_subject_hourly_rate_cents,
  settle_compute_charge,
}
use tahuna_oss.Billing.Settle.Outcome.{
  live_debit_key-not_empty, collected_parts, total_debited, collected_of, settle_compute_charge_lem,
}
use tahuna_oss.Billing.Live.{
  PreviousBilling, live_result, live_debit, live_debited, bill_at_rate, bill_live_compute_subject,
}

module _ {S CreditsId EventId : Type 0} (db : LedgerDb S CreditsId EventId) (config : BillingConfig)
    (prices : Prices) (is_debit_key : Text → Bool) where
  -- What a tick reports as collected.
  abbrev pub live_collected : ComputeBillingSubject → PreviousBilling → Text → ℕ → S → ℕ
  live_collected subject previous user target s =
      let before = stored_cents previous.compute_collected_cents in
      if ltb before target
      then min target (total_debited db config prices subject user target s)
      else before

  bill_at_rate_lem :
      (s : S) (now : ℕ) (subject : ComputeBillingSubject) (previous : PreviousBilling) (user : Text)
      (duration : ℕ) (rate : Fraction)
      → normalize_user_id subject.user_id ≡ ok user
      → Balanced is_debit_key db s
      → let target = estimate_run_usage_from_hourly_rate_cents rate (some (of_ℕ duration)) in
        (t : S) × (bill_at_rate db config prices now subject previous duration rate s
          ≡ ok (
            live_result subject.reference_type previous target
                (pos (live_collected subject previous user target s)),
            t,
          ))
  unfolding bill_at_rate
  bill_at_rate_lem s now subject previous user duration rate u b =
      let target = estimate_run_usage_from_hourly_rate_cents rate (some (of_ℕ duration)) in
      let debit = live_debit subject target (of_ℕ duration) rate in
      elim (Bool-cases (ltb (stored_cents previous.compute_collected_cents) target)) [
        | inr enough ↦ (s, rw enough refl)
        | inl more ↦
            let (d, s', debited, facts) =
              upsert_ledger_debit_total_lem is_debit_key db config s now debit user
                (trim debit.idempotency_key) u refl
                (live_debit_key-not_empty subject.reference_type subject.reference_id) b in
            let total = facts.reports_total ∙ ap pos facts.grows in
            let (c, o) =
              collected_parts target (total_debited db config prices subject user target s) in
            (
              s',
              rw more (
                  bind-ok (upsert_ledger_debit_total db config now debit)
                    (live_debited db config prices subject previous target) s s' d debited
                  ∙ rw (total, c) refl),
            )
      ]

  bill_live_compute_subject_lem :
      (s : S) (now : ℕ) (subject : ComputeBillingSubject) (started_at : Number)
      (previous : PreviousBilling) (user : Text) (rate : Fraction)
      → zero < floor_finite started_at
      → normalize_user_id subject.user_id ≡ ok user
      → resolve_compute_subject_hourly_rate_cents prices subject ≡ ok rate
      → Balanced is_debit_key db s
      → let target =
          estimate_run_usage_from_hourly_rate_cents rate
            (some (of_ℕ (now - floor_finite started_at))) in
        (t : S) × (bill_live_compute_subject db config prices now subject started_at previous s
          ≡ ok (
            live_result subject.reference_type previous target
                (pos (live_collected subject previous user target s)),
            t,
          ))
  unfolding bill_live_compute_subject
  bill_live_compute_subject_lem s now subject started_at previous user rate p u known b =
      let started : (floor_finite started_at == 0) ≡ false = ground arith in
      rw (started, known)
        (bill_at_rate_lem s now subject previous user (now - floor_finite started_at) rate u b)

  -- A tick of the live billing and a settlement, in one state and for one duration, agree where what
  -- was collected before does not exceed the charge: both return, and the settlement's charge and
  -- what it collects are those from which the tick makes its result.
  pub bill_live_compute_subject-settle_compute_charge :
      (s : S) (now : ℕ) (subject : ComputeBillingSubject) (started_at : Number)
      (previous : PreviousBilling) (user : Text) (rate : Fraction)
      → zero < floor_finite started_at
      → normalize_user_id subject.user_id ≡ ok user
      → resolve_compute_subject_hourly_rate_cents prices subject ≡ ok rate
      → Balanced is_debit_key db s
      → previous.compute_collected_cents ≡ subject.compute_collected_cents
      → stored_cents subject.compute_collected_cents
        ≤ estimate_run_usage_from_hourly_rate_cents rate
            (some (of_ℕ (now - floor_finite started_at)))
      → (r : ComputeSettlementResult) × (t : S) × (t' : S) × (settle_compute_charge db config prices
            now subject
            (of_ℕ (now - floor_finite started_at))
            s
          ≡ ok (r, t))
        × (bill_live_compute_subject db config prices now subject started_at previous s
            ≡ ok (live_result subject.reference_type previous r.charge_cents r.collected_cents, t'))
  bill_live_compute_subject-settle_compute_charge s now subject started_at previous user rate p u
        known b same below =
      let duration = now - floor_finite started_at in
      let target = estimate_run_usage_from_hourly_rate_cents rate (some (of_ℕ duration)) in
      let (r, t, settled, adds, collected) =
        settle_compute_charge_lem db config prices is_debit_key s now subject user (of_ℕ duration)
          rate u known b in
      let (t', billed) =
        bill_live_compute_subject_lem s now subject started_at previous user rate p u known b in
      let agree : live_collected subject previous user target s
          ≡ collected_of db config prices subject user target s =
        rw same (ground arith) in
      (r, t, t', settled, rw (adds.of_charge, collected, ← agree) billed)

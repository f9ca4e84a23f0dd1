-- ===== src/Billing/Reservations/Launch.antt =====
-- When a launch passes the check of the credits: `validateHostedComputeSessionCreate` of
-- web/convex/cloud/computeSessionReservations.ts.
use tahuna_oss.Common.{
  ℕ, ◌+◌, ◌≡◌, ◌⊎◌, refl, ◌∙◌, inl, inr, Bool, true, false, not, ◌||◌, ◌-◌, some, List, leb, ltb,
  ◌==◌, arith, Bool-cases,
}
use tahuna_oss.Common.Int.{pos_part}
use tahuna_oss.Js.Text.{Text, lit, or_else}
use tahuna_oss.Mutation.{Result, ok, err, ◌>>=◌, throw_if, gets, bind-ok}
use tahuna_oss.Session.Types.{SessionStatus, provisioning, running, terminating}
use tahuna_oss.Billing.Types.{BillingConfig, CreditsRow, CreditsPatch, UsageEvent, LedgerDb}
use tahuna_oss.Billing.Credits.{
  normalize_user_id, normalize_optional_text, ensure_credits_row, ensure_user_ledger,
}
use tahuna_oss.Billing.Pricing.{
  Prices, RunComputePricing, resolve_run_compute_pricing, compute_available_balance_cents,
}
use tahuna_oss.Billing.Reservations.{
  ReservationRow, SessionCreateArgs, sum_active_compute_session_reservation_cents, check_available,
  require_reservation, required_of, pricing_args, validate_hosted_compute_session_create,
}
use tahuna_oss.Billing.Ledger.Frame.{ensure_credits_row-keeps}
use tahuna_oss.Billing.Ledger.Returns.{ensure_credits_row-returns}
use tahuna_oss.Billing.Ledger.Totals.{funds, ensure_credits_row-funds}

-- A launch passes exactly if it fits.
abbrev pub Decides : {S : Type 0} → Bool → Result (Unit {0} × S) → Type 0
Decides {S} fits m =
    ((fits ≡ true) × ((t : S) × (m ≡ ok (tt, t)))) ⊎ ((fits ≡ false) × ((e : Text) × (m ≡ err e)))

throw_if-Decides :
    {S : Type 0} (fits refused : Bool) (message : Text) (t : S)
    → refused ≡ not fits
    → Decides fits (throw_if refused message t)
throw_if-Decides true refused message t h = rw h (inl (refl, (t, refl)))
throw_if-Decides false refused message t h = rw h (inr (refl, (message, refl)))

-- The cents that the active sessions of a user still reserve.
module _ {S CreditsId EventId : Type 0} (db : LedgerDb S CreditsId EventId) (config : BillingConfig)
    (prices : Prices) (sessions : S → Text → SessionStatus → List ReservationRow) where
  abbrev pub active : Text → S → ℕ
  active user s = sum_active_compute_session_reservation_cents db config prices sessions user s

module _ {S CreditsId EventId : Type 0} (db : LedgerDb S CreditsId EventId) (config : BillingConfig)
    (prices : Prices) (sessions : S → Text → SessionStatus → List ReservationRow)
    (sessions-insert_credits : (s : S) (row : CreditsRow) (user : Text) (status : SessionStatus)
      → sessions (db.insert_credits s row).0 user status ≡ sessions s user status)
    (sessions-patch_credits : (s : S) (id : CreditsId) (p : CreditsPatch) (user : Text)
        (status : SessionStatus)
      → sessions (db.patch_credits s id p) user status ≡ sessions s user status)
    (sessions-insert_event : (s : S) (e : UsageEvent) (user : Text) (status : SessionStatus)
      → sessions (db.insert_event s e).0 user status ≡ sessions s user status) where
  abbrev active_of : Text → S → ℕ
  active_of user s = active db config prices sessions user s

  same_active :
      (user : Text) (s t : S)
      → ((status : SessionStatus) → sessions t user status ≡ sessions s user status)
      → active_of user t ≡ active_of user s
  unfolding sum_active_compute_session_reservation_cents
  same_active user s t h = rw (h provisioning, h SessionStatus.idle, h running, h terminating) refl

  ensure_credits_row-active :
      (s t : S) (now : ℕ) (user source owner : Text) (found : CreditsId × CreditsRow)
      → ensure_credits_row db config now user source s ≡ ok (found, t)
      → active_of owner t ≡ active_of owner s
  ensure_credits_row-active s t now user source owner found done =
      let kept =
        ensure_credits_row-keeps db config (λ u. active_of owner u ≡ active_of owner s)
          (λ u row k. same_active owner u _ (sessions-insert_credits u row owner) ∙ k)
          (λ u id p k. same_active owner u _ (sessions-patch_credits u id p owner) ∙ k)
          (λ u e k. same_active owner u _ (sessions-insert_event u e owner) ∙ k) s now user source
          refl in
      rw done at kept

  require_reservation-Decides :
      (s : S) (now : ℕ) (args : SessionCreateArgs) (user : Text) (required : ℕ)
      → normalize_user_id args.user_id ≡ ok user
      → Decides
          (leb required (pos_part (funds db config user s) - active_of args.user_id s))
          (require_reservation db config prices sessions now args required s)
  unfolding ensure_user_ledger compute_available_balance_cents
  require_reservation-Decides s now args user required u =
      let source =
        or_else (normalize_optional_text (some (lit "compute_session_launch"))) (lit "system") in
      let ((id, row), t, made) = ensure_credits_row-returns db config s now user source in
      let same = ensure_credits_row-active s t now user source args.user_id (id, row) made in
      let balance =
        ensure_credits_row-funds (λ k. false) db config s t now user source id row made in
      let available = pos_part (funds db config user s) - active_of args.user_id s in
      let refused : ltb available required ≡ not (leb required available) = ground arith in
      let checks =
        check_available db config prices sessions required args (id, row) (active_of args.user_id t)
          t in
      let check : Decides (leb required available) checks =
        rw (balance, same)
          (throw_if-Decides (leb required available) (ltb available required) _ t refused) in
      rw
        (
          u,
          bind-ok (ensure_credits_row db config now user source)
              (λ found.
                gets (active_of args.user_id)
                >>= check_available db config prices sessions required args found)
              s t (id, row) made,
        )
        check

  -- Where its price is known, a launch passes the check exactly if nothing has to be reserved for it,
  -- or its reservation and those of the active sessions of the user fit in the balance of the user.
  pub validate_hosted_compute_session_create_lem :
      (s : S) (now : ℕ) (args : SessionCreateArgs) (user : Text) (pricing : RunComputePricing)
      → normalize_user_id args.user_id ≡ ok user
      → resolve_run_compute_pricing prices (pricing_args db config prices sessions args)
        ≡ ok pricing
      → let required = required_of db config prices sessions pricing in
        Decides
          (required == 0
            || leb
                (active db config prices sessions args.user_id s + required)
                (pos_part (funds db config user s)))
          (validate_hosted_compute_session_create db config prices sessions now args s)
  unfolding validate_hosted_compute_session_create
  validate_hosted_compute_session_create_lem s now args user pricing u known =
      let required = required_of db config prices sessions pricing in
      let available = pos_part (funds db config user s) - active_of args.user_id s in
      elim (Bool-cases (required == 0)) [
        | inl z ↦ rw (known, z) (inl (refl, (s, refl)))
        | inr some_needed ↦
            let fits : leb (active_of args.user_id s + required) (pos_part (funds db config user s))
                ≡ leb required available =
              ground arith in
            rw (known, some_needed, fits) (require_reservation-Decides s now args user required u)
      ]

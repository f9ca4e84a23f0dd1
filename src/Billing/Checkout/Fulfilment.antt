-- ===== src/Billing/Checkout/Fulfilment.antt =====
-- The fulfilment of a checkout and its repetition: `internalFulfillStripeCheckoutSession` of
-- web/convex/cloud/billing.ts.
use tahuna_oss.Common.{
  ℕ, zero, ◌<◌, ◌≡◌, refl, sym, ap, ◌∙◌, inl, inr, true, Option, none, some, arith, Bool-cases,
}
use tahuna_oss.Js.Text.{Text, text_eq}
use tahuna_oss.Mutation.{ok, bind-Returns}
use tahuna_oss.Billing.Types.{BillingConfig}
use tahuna_oss.Billing.Credits.{CreditEventArgs, LedgerEntryResult, grant_user_credits}
use tahuna_oss.Billing.Checkout.{
  CheckoutDb, CheckoutRow, FulfilArgs, FulfilResult, not_fulfilled, to_fulfilled, patched_checkout,
  first_truthy, truthy_time, floors_to, is_paid_status, checkout_grant, fulfil_credited, fulfil_row,
  fulfil_found, internal_fulfill_stripe_checkout_session,
}
use tahuna_oss.Billing.Ledger.Frame.{grant_user_credits-keeps}

module _ (to_upper_case : Text → Text) {S CreditsId EventId CheckoutId : Type 0}
    (db : CheckoutDb S CreditsId EventId CheckoutId) (config : BillingConfig) where
  open db use {checkout_by_session, patch_checkout, checkout-fulfil}

  -- The record of a checkout, marked as fulfilled.
  abbrev pub IsFulfilled : Text → S → Type 0
  IsFulfilled session t =
      (id : CheckoutId) × (row : CheckoutRow) × (checkout_by_session t session ≡ some (id, row))
      × (truthy_time row.fulfilled_at ≡ true)

  credited-IsFulfilled :
      (s t : S) (now : ℕ) (args : FulfilArgs) (id : CheckoutId) (row : CheckoutRow)
      (credited : Option LedgerEntryResult) (r : FulfilResult)
      → zero < now
      → checkout_by_session s args.stripe_checkout_session_id ≡ some (id, row)
      → fulfil_credited to_upper_case db config now args id row credited s ≡ ok (r, t)
      → IsFulfilled args.stripe_checkout_session_id t
  credited-IsFulfilled s t now args id row none r p h done = cc done
  credited-IsFulfilled s t now args id row (some credited) r p h done =
      let customer = first_truthy args.stripe_customer_id row.stripe_customer_id in
      let state : patch_checkout s id (to_fulfilled args.stripe_payment_intent_id customer now)
          ≡ t =
        cc done in
      (
        id,
        patched_checkout (to_fulfilled args.stripe_payment_intent_id customer now) row,
        ap (λ u. checkout_by_session u args.stripe_checkout_session_id) (sym state)
            ∙ checkout-fulfil s args.stripe_checkout_session_id id row args.stripe_payment_intent_id
                customer now h,
        ground arith,
      )

  granted_checkout :
      (s t : S) (now : ℕ) (args : CreditEventArgs) (session : Text) (id : CheckoutId)
      (row : CheckoutRow) (credited : Option LedgerEntryResult)
      → checkout_by_session s session ≡ some (id, row)
      → grant_user_credits db.ledger config now args s ≡ ok (credited, t)
      → checkout_by_session t session ≡ some (id, row)
  granted_checkout s t now args session id row credited h done =
      let kept =
        grant_user_credits-keeps db.ledger config
          (λ u. checkout_by_session u session ≡ some (id, row))
          (λ u r k. db.checkout-insert_credits u r session ∙ k)
          (λ u i p k. db.checkout-patch_credits u i p session ∙ k)
          (λ u e k. db.checkout-insert_event u e session ∙ k) s now args h in
      rw done at kept

  fulfil_row-IsFulfilled :
      (s t : S) (now : ℕ) (args : FulfilArgs) (id : CheckoutId) (row : CheckoutRow)
      (r : FulfilResult)
      → zero < now
      → checkout_by_session s args.stripe_checkout_session_id ≡ some (id, row)
      → fulfil_row to_upper_case db config now args id row s ≡ ok (r, t)
      → IsFulfilled args.stripe_checkout_session_id t
  unfolding fulfil_row
  fulfil_row-IsFulfilled s t now args id row r p h done =
      elim (Bool-cases (floors_to args.amount_total_cents row.amount_cents)) [
        | inr wrong ↦ cc (rw wrong at done)
        | inl amount ↦
            elim (Bool-cases (text_eq (to_upper_case args.currency) (to_upper_case row.currency))) [
              | inr other ↦ cc (rw (amount, other) at done)
              | inl same ↦
                  let (credited, s', g, rest) =
                    bind-Returns
                      (grant_user_credits db.ledger config now
                        (checkout_grant to_upper_case db config args row))
                      (fulfil_credited to_upper_case db config now args id row) s t r
                      (rw (amount, same) at done) in
                  credited-IsFulfilled s' t now args id row credited r p
                    (granted_checkout s s' now (checkout_grant to_upper_case db config args row)
                      args.stripe_checkout_session_id id row credited h g)
                    rest
            ]
      ]

  fulfil_found-IsFulfilled :
      (s t : S) (now : ℕ) (args : FulfilArgs) (o : Option (CheckoutId × CheckoutRow))
      (r : FulfilResult)
      → zero < now
      → checkout_by_session s args.stripe_checkout_session_id ≡ o
      → fulfil_found to_upper_case db config now args o s ≡ ok (r, t)
      → IsFulfilled args.stripe_checkout_session_id t
  fulfil_found-IsFulfilled s t now args none r p h done = cc done
  fulfil_found-IsFulfilled s t now args (some (id, row)) r p h done =
      elim (Bool-cases (truthy_time row.fulfilled_at)) [
        | inl before ↦
            let state : s ≡ t = cc (rw before at done) in
            (
              id,
              row,
              ap (λ u. checkout_by_session u args.stripe_checkout_session_id) (sym state) ∙ h,
              before,
            )
        | inr first ↦ fulfil_row-IsFulfilled s t now args id row r p h (rw first at done)
      ]

  -- After a paid checkout is handled without an error, at a positive time, handling the same checkout
  -- again, with whatever the payment service reports then, returns that nothing was fulfilled and
  -- changes nothing.
  pub internal_fulfill_stripe_checkout_session_again :
      (s t : S) (now later : ℕ) (args again : FulfilArgs) (r : FulfilResult)
      → zero < now
      → is_paid_status args.payment_status ≡ true
      → again.stripe_checkout_session_id ≡ args.stripe_checkout_session_id
      → internal_fulfill_stripe_checkout_session to_upper_case db config now args s ≡ ok (r, t)
      → internal_fulfill_stripe_checkout_session to_upper_case db config later again t
        ≡ ok (not_fulfilled, t)
  unfolding internal_fulfill_stripe_checkout_session
  internal_fulfill_stripe_checkout_session_again s t now later args again r p paid same done =
      let (id, row, h, marked) =
        fulfil_found-IsFulfilled s t now args
          (checkout_by_session s args.stripe_checkout_session_id) r p refl (rw paid at done) in
      elim (Bool-cases (is_paid_status again.payment_status)) [
        | inl due ↦ rw (due, same, h, marked) refl
        | inr unpaid ↦ rw unpaid refl
      ]

-- ===== src/Billing/Checkout.antt =====
-- The records of the checkouts at the payment service and their fulfilment, in
-- web/convex/cloud/billing.ts. The payment service is not modelled: an operation has what it reported
-- as arguments. The method `toUpperCase` is a parameter.
pub mod Fulfilment
use tahuna_oss.Common.{
  ℕ, zero, suc, ◌≡◌, ◌/◌, Bool, true, false, not, ◌||◌, Option, none, some, List, [], ◌∷◌, ◌++◌,
  ltb, ◌==◌, if◌then◌else◌,
}
use tahuna_oss.Common.Int.{ℤ}
use tahuna_oss.Js.Text.{Text, lit, text_eq, or_else, is_empty}
use tahuna_oss.Js.Number.{Number, finite, negative, of_ℕ}
use tahuna_oss.Js.Json.{Json, opt_text}
use tahuna_oss.Mutation.{
  Result, ok, err, Mutation, ◌>>=◌, ◌>>◌, pure, throw, throw_if, gets, modify, lift,
}
use tahuna_oss.Billing.Types.{BillingConfig, CreditsRow, CreditsPatch, UsageEvent, LedgerDb}
use tahuna_oss.Billing.Credits.{CreditEventArgs, LedgerEntryResult, grant_user_credits}

pub data CheckoutStatus : Type 0 where
  pending open_for_payment paid fulfilled failed : CheckoutStatus

pub record CheckoutRow : Type 0 where
  pub user_id : Text
  pub amount_cents : ℕ
  pub credits_cents : ℕ
  pub currency : Text
  pub status : CheckoutStatus
  pub stripe_customer_id : Option Text
  pub stripe_checkout_session_id : Option Text
  pub stripe_payment_intent_id : Option Text
  pub checkout_url : Option Text
  pub error : Option Text
  pub fulfilled_at : Option ℕ
  pub updated_at : ℕ

pub data CheckoutPatch : Type 0 where
  to_open : (stripe_checkout_session_id checkout_url : Text) → ℕ → CheckoutPatch
  to_failed : (error : Option Text) → ℕ → CheckoutPatch
  to_fulfilled : (stripe_payment_intent_id stripe_customer_id : Option Text) → ℕ → CheckoutPatch

abbrev pub patched_checkout : CheckoutPatch → CheckoutRow → CheckoutRow
patched_checkout (to_open id url now) row = record row {
  status = open_for_payment;
  stripe_checkout_session_id = some id;
  checkout_url = some url;
  updated_at = now;
}
patched_checkout (to_failed error now) row = record row {
  status = failed;
  error = error;
  updated_at = now;
}
patched_checkout (to_fulfilled intent customer now) row = record row {
  status = fulfilled;
  stripe_payment_intent_id = intent;
  stripe_customer_id = customer;
  fulfilled_at = some now;
  updated_at = now;
}

pub record CheckoutArgs : Type 0 where
  pub user_id : Text
  pub amount_cents : ℕ
  pub credits_cents : ℕ
  pub currency : Text

pub record FulfilArgs : Type 0 where
  pub stripe_checkout_session_id : Text
  pub stripe_payment_intent_id : Option Text
  pub stripe_customer_id : Option Text
  pub amount_total_cents : Number
  pub currency : Text
  pub payment_status : Text

pub record FulfilResult : Type 0 where
  pub fulfilled : Bool
  pub balance_cents : Option ℤ

abbrev pub not_fulfilled : FulfilResult
not_fulfilled = record { fulfilled = false; balance_cents = none }

abbrev pub new_checkout : ℕ → CheckoutArgs → CheckoutRow
new_checkout now args = record {
  user_id = args.user_id;
  amount_cents = args.amount_cents;
  credits_cents = args.credits_cents;
  currency = args.currency;
  status = pending;
  stripe_customer_id = none;
  stripe_checkout_session_id = none;
  stripe_payment_intent_id = none;
  checkout_url = none;
  error = none;
  fulfilled_at = none;
  updated_at = now;
}

abbrev pub is_fulfilled_status : CheckoutStatus → Bool
is_fulfilled_status fulfilled = true
is_fulfilled_status _ = false

-- `STRIPE_CHECKOUT_PAYMENT_STATUSES.has(status)`
unfoldable pub is_paid_status : Text → Bool
is_paid_status status = text_eq status (lit "paid") || text_eq status (lit "no_payment_required")

-- The truthiness of an optional time.
abbrev pub truthy_time : Option ℕ → Bool
truthy_time none = false
truthy_time (some t) = ltb 0 t

-- `Math.floor(total) === amount`
abbrev pub floors_to : Number → ℕ → Bool
floors_to (finite n d) amount = n / suc d == amount
floors_to _ amount = false

-- `a || b` of optional strings.
abbrev pub first_truthy : Option Text → Option Text → Option Text
first_truthy none b = b
first_truthy (some a) b = if is_empty a then b else some a

unfoldable pub normalize_top_up_amount_cents : Number → Result ℕ
normalize_top_up_amount_cents (finite n d) =
    if ltb (n / suc d) 100
    then err (lit "amount must be at least 100 cents")
    else if ltb 100000 (n / suc d)
    then err (lit "amount must be at most 100000 cents")
    else ok (n / suc d)
normalize_top_up_amount_cents (negative n d) = err (lit "amount must be at least 100 cents")
normalize_top_up_amount_cents _ = err (lit "amount must be a finite number")

-- The table of the checkouts, beside the ledger.
pub record CheckoutDb (S CreditsId EventId CheckoutId : Type 0) : Type 1 where
  pub ledger : LedgerDb S CreditsId EventId
  pub checkout_by_session : S → Text → Option (CheckoutId × CheckoutRow)
  pub insert_checkout : S → CheckoutRow → S × CheckoutId
  pub patch_checkout : S → CheckoutId → CheckoutPatch → S
  pub checkout-fulfil :
      (s : S) (session : Text) (id : CheckoutId) (row : CheckoutRow) (intent customer : Option Text)
      (now : ℕ)
      → checkout_by_session s session ≡ some (id, row)
      → checkout_by_session (patch_checkout s id (to_fulfilled intent customer now)) session
        ≡ some (id, patched_checkout (to_fulfilled intent customer now) row)
  pub checkout-insert_credits :
      (s : S) (row : CreditsRow) (session : Text)
      → checkout_by_session (ledger.insert_credits s row).0 session ≡ checkout_by_session s session
  pub checkout-patch_credits :
      (s : S) (id : CreditsId) (p : CreditsPatch) (session : Text)
      → checkout_by_session (ledger.patch_credits s id p) session ≡ checkout_by_session s session
  pub checkout-insert_event :
      (s : S) (e : UsageEvent) (session : Text)
      → checkout_by_session (ledger.insert_event s e).0 session ≡ checkout_by_session s session

module _ (to_upper_case : Text → Text) {S CreditsId EventId CheckoutId : Type 0}
    (db : CheckoutDb S CreditsId EventId CheckoutId) (config : BillingConfig) where
  open db use {checkout_by_session, insert_checkout, patch_checkout}

  unfoldable pub internal_create_stripe_checkout_session_record :
      ℕ → CheckoutArgs → Mutation S CheckoutId
  internal_create_stripe_checkout_session_record now args s =
      let (t, id) = insert_checkout s (new_checkout now args) in ok (id, t)

  unfoldable pub internal_mark_stripe_checkout_session_open :
      ℕ → CheckoutId → Text → Text → Mutation S (Unit {0})
  internal_mark_stripe_checkout_session_open now id session url =
      modify (λ s. patch_checkout s id (to_open session url now))

  unfoldable pub internal_fail_stripe_checkout_session_record :
      ℕ → CheckoutId → Text → Mutation S (Unit {0})
  internal_fail_stripe_checkout_session_record now id error =
      modify (λ s. patch_checkout s id (to_failed (some error) now))

  abbrev pub fail_found :
      ℕ → Option Text → Option (CheckoutId × CheckoutRow) → Mutation S (Unit {0})
  fail_found now error none = pure tt
  fail_found now error (some (id, row)) =
      if is_fulfilled_status row.status
      then pure tt
      else modify (λ s. patch_checkout s id (to_failed error now))

  unfoldable pub internal_mark_stripe_checkout_session_failed :
      ℕ → Text → Option Text → Mutation S (Unit {0})
  internal_mark_stripe_checkout_session_failed now session error = do
    row ← gets (λ s. checkout_by_session s session)
    fail_found now error row

  abbrev pub checkout_key : Text → Text
  checkout_key session = lit "stripe:checkout:" ++ session

  abbrev pub checkout_grant : FulfilArgs → CheckoutRow → CreditEventArgs
  checkout_grant args row = record {
    user_id = row.user_id;
    amount_cents = of_ℕ row.credits_cents;
    event_type = lit "stripe_top_up";
    idempotency_key = some (checkout_key args.stripe_checkout_session_id);
    reference_type = some (lit "stripe_checkout_session");
    reference_id = some args.stripe_checkout_session_id;
    metadata = some (
        ("stripe_payment_intent_id", opt_text args.stripe_payment_intent_id)
        ∷ ("stripe_customer_id", opt_text args.stripe_customer_id)
        ∷ ("amount_cents", some (Json.number (of_ℕ row.amount_cents)))
        ∷ ("credits_cents", some (Json.number (of_ℕ row.credits_cents)))
        ∷ ("currency", some (Json.str row.currency))
        ∷ []);
  }

  abbrev pub fulfil_credited :
      ℕ → FulfilArgs → CheckoutId → CheckoutRow → Option LedgerEntryResult → Mutation S FulfilResult
  fulfil_credited now args id row none = throw (lit "stripe credit grant failed")
  fulfil_credited now args id row (some credited) =
      modify (λ s. patch_checkout s id (
        to_fulfilled args.stripe_payment_intent_id
          (first_truthy args.stripe_customer_id row.stripe_customer_id) now))
      >> pure (record { fulfilled = credited.applied; balance_cents = some credited.balance_cents })

  unfoldable pub fulfil_row : ℕ → FulfilArgs → CheckoutId → CheckoutRow → Mutation S FulfilResult
  fulfil_row now args id row = do
    throw_if (not (floors_to args.amount_total_cents row.amount_cents))
        (lit "stripe checkout amount mismatch")
    throw_if (not (text_eq (to_upper_case args.currency) (to_upper_case row.currency)))
        (lit "stripe checkout currency mismatch")
    credited ← grant_user_credits db.ledger config now (checkout_grant args row)
    fulfil_credited now args id row credited

  abbrev pub fulfil_found :
      ℕ → FulfilArgs → Option (CheckoutId × CheckoutRow) → Mutation S FulfilResult
  fulfil_found now args none s = err (lit "stripe checkout session not found")
  fulfil_found now args (some (id, row)) s =
      if truthy_time row.fulfilled_at then ok (not_fulfilled, s) else fulfil_row now args id row s

  unfoldable pub internal_fulfill_stripe_checkout_session : ℕ → FulfilArgs → Mutation S FulfilResult
  internal_fulfill_stripe_checkout_session now args s =
      if is_paid_status args.payment_status
      then fulfil_found now args (checkout_by_session s args.stripe_checkout_session_id) s
      else ok (not_fulfilled, s)

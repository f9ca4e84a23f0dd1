-- ===== src/Billing/Examples/Checkouts.antt =====
-- A test of the fulfilment of a checkout. The id of a record is its session at the payment service.
use tahuna_oss.Common.{ℕ, ◌≡◌, refl, sym, ap, true, Option, none, some, arith, if◌then◌else◌}
use tahuna_oss.Common.Int.{pos, ◌+ℤ◌}
use tahuna_oss.Js.Text.{Text, lit, text_eq, trim, trim_start, trim_end, is_space}
use tahuna_oss.Js.TextLaws.{text_eq_refl}
use tahuna_oss.Js.Number.{of_ℕ}
use tahuna_oss.Mutation.{ok, after}
use tahuna_oss.Billing.Types.{BillingConfig}
use tahuna_oss.Billing.Credits.{
  normalize_user_id, normalize_cents, normalize_ledger_delta, grant_user_credits, post_ledger_entry,
  ensure_credits_row, create_credits_row, post_new, find_by_key,
}
use tahuna_oss.Billing.Checkout.{
  CheckoutRow, CheckoutPatch, patched_checkout, to_fulfilled, open_for_payment, FulfilArgs,
  not_fulfilled, CheckoutDb, is_paid_status, fulfil_row, internal_fulfill_stripe_checkout_session,
}
use tahuna_oss.Billing.Checkout.Fulfilment.{internal_fulfill_stripe_checkout_session_again}
use tahuna_oss.Billing.Examples.Tables.{LedgerTables, Place, tables, no_rows}

abbrev with_session : Text → Option CheckoutRow → Option (Text × CheckoutRow)
with_session session none = none
with_session session (some row) = some (session, row)

abbrev checkout_of : LedgerTables → Text → Option (Text × CheckoutRow)
checkout_of s session = with_session session (s.checkouts session)

abbrev put_checkout : LedgerTables → Text → Option CheckoutRow → LedgerTables
put_checkout s session o = record s {
  checkouts = λ other. if text_eq session other then o else s.checkouts other;
}

abbrev patch_row : CheckoutPatch → Option CheckoutRow → Option CheckoutRow
patch_row p none = none
patch_row p (some row) = some (patched_checkout p row)

with_session-facts :
    (session : Text) (o : Option CheckoutRow) (id : Text) (row : CheckoutRow)
    → with_session session o ≡ some (id, row)
    → (session ≡ id) × (o ≡ some row)
with_session-facts session none id row h = cc
with_session-facts session (some r) id row h =
    let a : session ≡ id = cc in let b : r ≡ row = cc in (a, ap some b)

pub checkout-patch :
    (s : LedgerTables) (session id : Text) (row : CheckoutRow) (intent customer : Option Text)
    (now : ℕ)
    → checkout_of s session ≡ some (id, row)
    → checkout_of
        (put_checkout s id (patch_row (to_fulfilled intent customer now) (s.checkouts id)))
        session
      ≡ some (id, patched_checkout (to_fulfilled intent customer now) row)
checkout-patch s session id row intent customer now h =
    let (same, found) = with_session-facts session (s.checkouts session) id row h in
    rw (sym same, text_eq_refl session, found) refl

abbrev checkout_tables : CheckoutDb LedgerTables Text Place Text
checkout_tables = record {
  ledger = tables;
  checkout_by_session = checkout_of;
  insert_checkout = λ s row. (put_checkout s (lit "new") (some row), lit "new");
  patch_checkout = λ s id p. put_checkout s id (patch_row p (s.checkouts id));
  checkout-fulfil = checkout-patch;
  checkout-insert_credits = λ s row session. refl;
  checkout-patch_credits = λ s id p session. refl;
  checkout-insert_event = λ s e session. refl;
}

abbrev settings : BillingConfig
settings = record { initial_credit_cents = of_ℕ 500; currency = lit "usd" }

abbrev session : Text
session = lit "cs_1"

abbrev waiting : CheckoutRow
waiting = record {
  user_id = lit "user_1";
  amount_cents = 1000;
  credits_cents = 1000;
  currency = lit "usd";
  status = open_for_payment;
  stripe_customer_id = none;
  stripe_checkout_session_id = some session;
  stripe_payment_intent_id = none;
  checkout_url = none;
  error = none;
  fulfilled_at = none;
  updated_at = 1;
}

abbrev opened : LedgerTables
opened = put_checkout no_rows session (some waiting)

abbrev payment : FulfilArgs
payment = record {
  stripe_checkout_session_id = session;
  stripe_payment_intent_id = none;
  stripe_customer_id = none;
  amount_total_cents = of_ℕ 1000;
  currency = lit "usd";
  payment_status = lit "paid";
}

abbrev paid_state : LedgerTables
paid_state =
    after
      (internal_fulfill_stripe_checkout_session (λ t. t) checkout_tables settings 50 payment opened)
      opened

internal_fulfill_stripe_checkout_session_again_example :
    internal_fulfill_stripe_checkout_session (λ t. t) checkout_tables settings 60 payment paid_state
    ≡ ok (not_fulfilled, paid_state)
unfolding internal_fulfill_stripe_checkout_session is_paid_status fulfil_row normalize_user_id
    normalize_cents normalize_ledger_delta grant_user_credits post_ledger_entry ensure_credits_row
    create_credits_row post_new find_by_key text_eq lit trim trim_start trim_end is_space ◌+ℤ◌
internal_fulfill_stripe_checkout_session_again_example =
    internal_fulfill_stripe_checkout_session_again (λ t. t) checkout_tables settings opened
      paid_state 50 60 payment payment
      (record { fulfilled = true; balance_cents = some (pos 1500) }) (omega arith) refl refl refl

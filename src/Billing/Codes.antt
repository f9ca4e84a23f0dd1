-- ===== src/Billing/Codes.antt =====
-- The operations on redeemable codes, web/convex/cloud/redeemableCodes.ts. The user is signed in, and
-- `now` is `Date.now()`.
pub mod Redemptions
use tahuna_oss.Common.{
  ℕ, ◌≡◌, zero, suc, ◌+◌, ◌-◌, ◌*◌, ◌/◌, ◌%◌, Bool, true, false, not, ◌&&◌, ◌||◌, Option, none,
  some, List, [], ◌∷◌, ◌++◌, ltb, leb, ◌==◌, if◌then◌else◌, map, get_or,
}
use tahuna_oss.Common.Int.{ℤ}
use tahuna_oss.Js.Text.{Text, lit, trim, is_empty, text_eq, mem_text}
use tahuna_oss.Js.Number.{Number, finite, negative, of_ℕ}
use tahuna_oss.Js.Json.{Json}
use tahuna_oss.Mutation.{
  Result, ok, err, and_then, Mutation, ◌>>=◌, ◌>>◌, pure, throw, throw_if, gets, modify, lift,
  or_throw,
}
use tahuna_oss.Billing.Types.{BillingConfig, CreditsRow, CreditsPatch, UsageEvent, LedgerDb}
use tahuna_oss.Billing.Credits.{CreditEventArgs, LedgerEntryResult, grant_user_credits}
use tahuna_oss.Billing.CodeArgs.{
  CodeRow, CodeKind, promo, referral, PromoPatch, CodePatch, promote, redeemed, patched_code,
  CodeArgs, RedeemResult, normalize_amount_dollars, normalize_max_redemptions, CodeSettings,
  normalize_code, normalize_expires_at, normalize_created_by,
}

-- The table of the codes, beside the ledger. The writes of each leave the other alone.
pub record CodesDb (S CreditsId EventId CodeId : Type 0) : Type 1 where
  pub ledger : LedgerDb S CreditsId EventId
  pub code_by_code : S → Text → Option (CodeId × CodeRow)
  pub insert_code : S → CodeRow → S
  pub patch_code : S → CodeId → CodePatch → S
  pub code_id_text : CodeId → Text
  pub code_by_code-patch_code :
      (s : S) (code : Text) (id : CodeId) (row : CodeRow) (p : CodePatch)
      → code_by_code s code ≡ some (id, row)
      → code_by_code (patch_code s id p) code ≡ some (id, patched_code p row)
  pub events-patch_code :
      (s : S) (id : CodeId) (p : CodePatch) (user : Text)
      → ledger.events (patch_code s id p) user ≡ ledger.events s user
  pub code-insert_credits :
      (s : S) (row : CreditsRow) (code : Text)
      → code_by_code (ledger.insert_credits s row).0 code ≡ code_by_code s code
  pub code-patch_credits :
      (s : S) (id : CreditsId) (p : CreditsPatch) (code : Text)
      → code_by_code (ledger.patch_credits s id p) code ≡ code_by_code s code
  pub code-insert_event :
      (s : S) (e : UsageEvent) (code : Text)
      → code_by_code (ledger.insert_event s e).0 code ≡ code_by_code s code

module _ (settings : CodeSettings) {S CreditsId EventId CodeId : Type 0}
    (db : CodesDb S CreditsId EventId CodeId) (config : BillingConfig) where
  open db use {code_by_code, insert_code, patch_code, code_id_text}

  -- The arguments of both operations that make codes, normalised in the order of the source.
  abbrev pub normalize_code_args : ℕ → CodeArgs → Result PromoPatch
  normalize_code_args now args = and_then (normalize_amount_dollars args.amount_dollars) λ amount.
      and_then (normalize_created_by settings args.created_by) λ created_by.
        and_then (normalize_max_redemptions args.max_redemptions) λ max_redemptions.
          and_then (normalize_expires_at settings now args.expires_at) λ expires_at. ok (record {
            amount_cents = amount;
            max_redemptions = max_redemptions;
            created_by = created_by;
            expires_at = expires_at;
            updated_at = now;
          })

  abbrev pub new_code : Text → CodeKind → PromoPatch → CodeRow
  new_code code kind p = record {
    code = code;
    kind = kind;
    amount_cents = p.amount_cents;
    currency = config.currency;
    max_redemptions = p.max_redemptions;
    redemption_count = 0;
    active = true;
    created_by = p.created_by;
    expires_at = p.expires_at;
    updated_at = p.updated_at;
  }

  abbrev pub create_absent : Text → PromoPatch → Option (CodeId × CodeRow) → Mutation S Text
  create_absent code p none = modify (λ s. insert_code s (new_code code referral p)) >> pure code
  create_absent code p (some found) = throw (lit "code already exists")

  -- `random` is `crypto.randomUUID().slice(0, 8)`.
  unfoldable pub internal_create_referral_code : ℕ → Text → Option Text → CodeArgs → Mutation S Text
  internal_create_referral_code now random given args = do
    code ← lift (normalize_code settings (get_or given random))
    p ← lift (normalize_code_args now args)
    existing ← gets (λ s. code_by_code s code)
    create_absent code p existing

  abbrev pub promote_found : Text → PromoPatch → Option (CodeId × CodeRow) → Mutation S (Unit {0})
  promote_found code p none = modify (λ s. insert_code s (new_code code promo p))
  promote_found code p (some (id, row)) = modify (λ s. patch_code s id (promote p))

  unfoldable pub internal_upsert_promo_code : ℕ → Text → CodeArgs → Mutation S (Unit {0})
  internal_upsert_promo_code now raw args = do
    code ← lift (normalize_code settings raw)
    p ← lift (normalize_code_args now args)
    existing ← gets (λ s. code_by_code s code)
    promote_found code p existing

  abbrev pub redemption_event_type : CodeKind → Text
  redemption_event_type promo = lit "promo_code_redemption"
  redemption_event_type referral = lit "referral_code_redemption"

  abbrev pub redemption_key : CodeId → Text → Text
  redemption_key id user = lit "redeem:" ++ code_id_text id ++ lit ":" ++ user

  abbrev pub redemption_grant : Text → CodeId → CodeRow → CreditEventArgs
  redemption_grant user id row = record {
    user_id = user;
    amount_cents = of_ℕ row.amount_cents;
    event_type = redemption_event_type row.kind;
    idempotency_key = some (redemption_key id user);
    reference_type = some (lit "redeemable_code");
    reference_id = some (code_id_text id);
    metadata = some (("code", some (Json.str row.code)) ∷ []);
  }

  -- What follows the grant.
  abbrev pub redeem_granted :
      ℕ → CodeId → CodeRow → Option LedgerEntryResult → Mutation S RedeemResult
  redeem_granted now id row none = throw (lit "unable to redeem code")
  redeem_granted now id row (some result) =
      throw_if (not result.applied) (lit "code already redeemed")
      >> modify (λ s. patch_code s id (redeemed (suc row.redemption_count) now))
      >> pure (record {
        balance_cents = result.balance_cents;
        currency = row.currency;
        amount_cents_granted = row.amount_cents;
      })

  unfoldable pub redeem_row : ℕ → Text → CodeId × CodeRow → Mutation S RedeemResult
  redeem_row now user (id, row) = do
    throw_if (not row.active) (lit "invalid code")
    throw_if (ltb row.expires_at now) (lit "code has expired")
    throw_if (leb row.max_redemptions row.redemption_count) (lit "code redemption limit reached")
    granted ← grant_user_credits db.ledger config now (redemption_grant user id row)
    redeem_granted now id row granted

  -- `user` is the id of the signed-in user.
  unfoldable pub redeem_code : ℕ → Text → Text → Mutation S RedeemResult
  redeem_code now user raw = do
    code ← lift (normalize_code settings raw)
    found ← gets (λ s. code_by_code s code)
    row ← or_throw found (lit "invalid code")
    redeem_row now user row

-- ===== src/Billing/Codes/Redemptions.antt =====
-- A redemption and its repetition: `redeemCode` of web/convex/cloud/redeemableCodes.ts.
use tahuna_oss.Common.{
  ℕ, suc, ◌≤◌, ◌<◌, ◌≡◌, refl, sym, ap, ◌∙◌, inl, inr, true, false, Option, none, some, ◌++◌, ltb,
  leb, is_some, arith, Bool-cases, Option-cases,
}
use tahuna_oss.Js.Text.{Text, lit, trim, is_empty, is_space}
use tahuna_oss.Js.TextLaws.{trim-not_empty}
use tahuna_oss.Js.Number.{of_ℕ}
use tahuna_oss.Mutation.{Result, ok, err, ◌>>=◌, bind-Returns, Result-cases}
use tahuna_oss.Billing.Types.{BillingConfig, UsageEvent}
use tahuna_oss.Billing.Credits.{
  CreditEventArgs, LedgerEntryResult, normalize_user_id, normalize_cents, find_by_key,
  post_ledger_entry, grant_user_credits,
}
use tahuna_oss.Billing.CodeArgs.{
  CodeRow, redeemed, patched_code, RedeemResult, CodeSettings, normalize_code,
}
use tahuna_oss.Billing.Codes.{
  CodesDb, redemption_key, redemption_grant, redeem_granted, redeem_row, redeem_code,
}
use tahuna_oss.Billing.Ledger.Repeats.{grant_user_credits-PostedAs}
use tahuna_oss.Billing.Ledger.Returns.{normalize_user_id_again, normalize_ledger_delta-of_ℕ}
use tahuna_oss.Billing.Ledger.Frame.{grant_user_credits-keeps}

module _ (settings : CodeSettings) {S CreditsId EventId CodeId : Type 0}
    (db : CodesDb S CreditsId EventId CodeId) (config : BillingConfig) where
  open db use {code_by_code, patch_code, code_id_text, code_by_code-patch_code, events-patch_code}

  -- What a successful redemption found and did: an active code, neither expired nor used up, whose
  -- count grew by one, and an entry of the ledger under the key of the code and the user.
  pub record Redeems (now : ℕ) (user_id user code : Text) (id : CodeId) (row : CodeRow) (t : S)
      : Type 0 where
    pub was_active : row.active ≡ true
    pub not_expired : now ≤ row.expires_at
    pub had_room : row.redemption_count < row.max_redemptions
    pub counted :
        code_by_code t code ≡ some (id, patched_code (redeemed (suc row.redemption_count) now) row)
    pub event_id : EventId
    pub event : UsageEvent
    pub logged :
        find_by_key (trim (redemption_key settings db config id user_id)) (db.ledger.events t user)
        ≡ some (event_id, event)

  redemption_key-not_empty :
      (id : CodeId) (user : Text)
      → is_empty (trim (redemption_key settings db config id user)) ≡ false
  unfolding lit is_space
  redemption_key-not_empty id user =
      trim-not_empty 114 (lit "edeem:" ++ code_id_text id ++ lit ":" ++ user) refl

  granted-Redeems :
      (s t : S) (now : ℕ) (user code : Text) (id : CodeId) (row : CodeRow)
      (granted : Option LedgerEntryResult) (r : RedeemResult)
      → code_by_code s code ≡ some (id, row)
      → redeem_granted settings db config now id row granted s ≡ ok (r, t)
      → (is_some granted ≡ true) × (patch_code s id (redeemed (suc row.redemption_count) now) ≡ t)
  granted-Redeems s t now user code id row none r found done = cc done
  granted-Redeems s t now user code id row (some result) r found done =
      elim (Bool-cases result.applied) [
        | inl a ↦ (refl, cc (rw a at done))
        | inr a ↦ cc (rw a at done)
      ]

  abbrev HoldsCode : Text → CodeId → CodeRow → S → Type 0
  HoldsCode code id row s = code_by_code s code ≡ some (id, row)

  granted_code :
      (s t : S) (now : ℕ) (args : CreditEventArgs) (code : Text) (id : CodeId) (row : CodeRow)
      (granted : Option LedgerEntryResult)
      → HoldsCode code id row s
      → grant_user_credits db.ledger config now args s ≡ ok (granted, t)
      → HoldsCode code id row t
  granted_code s t now args code id row granted h done =
      let kept =
        grant_user_credits-keeps db.ledger config (HoldsCode code id row)
          (λ u r k. db.code-insert_credits u r code ∙ k)
          (λ u i p k. db.code-patch_credits u i p code ∙ k)
          (λ u e k. db.code-insert_event u e code ∙ k) s now args h in
      rw done at kept

  granted_row-Redeems :
      (s t : S) (now : ℕ) (user_id user code : Text) (id : CodeId) (row : CodeRow)
      (r : RedeemResult)
      → normalize_user_id user_id ≡ ok user
      → HoldsCode code id row s
      → row.active ≡ true
      → ltb row.expires_at now ≡ false
      → leb row.max_redemptions row.redemption_count ≡ false
      → (grant_user_credits db.ledger config now
              (redemption_grant settings db config user_id id row)
            >>= redeem_granted settings db config now id row)
          s
        ≡ ok (r, t)
      → Redeems now user_id user code id row t
  granted_row-Redeems s t now user_id user code id row r u h active fresh room done =
      let args = redemption_grant settings db config user_id id row in
      let (granted, s', g, rest) =
        bind-Returns (grant_user_credits db.ledger config now args)
          (redeem_granted settings db config now id row) s t r done in
      let (given, state) =
        granted-Redeems s' t now user code id row granted r
          (granted_code s s' now args code id row granted h g) rest in
      elim (Option-cases granted) [
        | inl none_given ↦ cc (rw none_given at given)
        | inr (entry, e) ↦
            let (event_id, event, logged, balance, amount) =
              grant_user_credits-PostedAs db.ledger config s s' now args user
                (trim (redemption_key settings db config id user_id)) entry u
                (rw (redemption_key-not_empty id user_id) refl) (rw e at g) in
            record {
              was_active = active;
              not_expired = ground arith;
              had_room = ground arith;
              counted = rw (sym state) (
                  code_by_code-patch_code s' code id row _
                    (granted_code s s' now args code id row granted h g));
              event_id = event_id;
              event = event;
              logged =
                  ap
                    (λ u.
                      find_by_key (trim (redemption_key settings db config id user_id))
                        (db.ledger.events u user))
                    (sym state)
                  ∙ ap (find_by_key _) (events-patch_code s' id _ user)
                  ∙ logged;
            }
      ]

  redeem_row-Redeems :
      (s t : S) (now : ℕ) (user_id user code : Text) (id : CodeId) (row : CodeRow)
      (r : RedeemResult)
      → normalize_user_id user_id ≡ ok user
      → HoldsCode code id row s
      → redeem_row settings db config now user_id (id, row) s ≡ ok (r, t)
      → Redeems now user_id user code id row t
  unfolding redeem_row
  redeem_row-Redeems s t now user_id user code id row r u h done = elim (Bool-cases row.active) [
    | inr gone ↦ cc (rw gone at done)
    | inl active ↦ elim (Bool-cases (ltb row.expires_at now)) [
      | inl expired ↦ cc (rw (active, expired) at done)
      | inr fresh ↦ elim (Bool-cases (leb row.max_redemptions row.redemption_count)) [
        | inl full ↦ cc (rw (active, fresh, full) at done)
        | inr room ↦
            granted_row-Redeems s t now user_id user code id row r u h active fresh room
              (rw (active, fresh, room) at done)
      ]
    ]
  ]

  -- A redemption that succeeds found an active code that was neither expired nor used up. It counts
  -- one more redemption of that code and leaves an entry of the ledger under the key of the code and
  -- the user.
  pub redeem_code-Redeems :
      (s t : S) (now : ℕ) (user_id user raw code : Text) (r : RedeemResult)
      → normalize_code settings raw ≡ ok code
      → normalize_user_id user_id ≡ ok user
      → redeem_code settings db config now user_id raw s ≡ ok (r, t)
      → (id : CodeId) × (row : CodeRow) × (code_by_code s code ≡ some (id, row))
        × Redeems now user_id user code id row t
  unfolding redeem_code
  redeem_code-Redeems s t now user_id user raw code r c u done =
      elim (Option-cases (code_by_code s code)) [
        | inl missing ↦ cc (rw (c, missing) at done)
        | inr ((id, row), h) ↦ (
          id,
          row,
          h,
          redeem_row-Redeems s t now user_id user code id row r u h (rw (c, h) at done),
        )
      ]

  abbrev Refuses : Result (RedeemResult × S) → Type 0
  Refuses m = (e : Text) × (m ≡ err e)

  granted_again-Refuses :
      (s : S) (now : ℕ) (user_id user code : Text) (id : CodeId) (row : CodeRow)
      (event_id : EventId) (event : UsageEvent)
      → normalize_user_id user_id ≡ ok user
      → find_by_key (trim (redemption_key settings db config id user_id)) (db.ledger.events s user)
        ≡ some (event_id, event)
      → Refuses (
          (grant_user_credits db.ledger config now
                (redemption_grant settings db config user_id id row)
              >>= redeem_granted settings db config now id row)
            s)
  unfolding grant_user_credits post_ledger_entry normalize_user_id lit trim
  granted_again-Refuses s now user_id user code id row event_id event u logged =
      let key = redemption_key-not_empty id user_id in
      elim (Result-cases (normalize_cents (of_ℕ row.amount_cents))) [
        | inl (e, bad) ↦ (e, rw (u, bad) refl)
        | inr (amount, good) ↦ (
          lit "code already redeemed",
          rw
              (
                u,
                good,
                normalize_user_id_again user_id user u,
                normalize_ledger_delta-of_ℕ amount,
                key,
                logged,
              )
              refl,
        )
      ]

  redeem_row_again-Refuses :
      (s : S) (now : ℕ) (user_id user code : Text) (id : CodeId) (row : CodeRow)
      (event_id : EventId) (event : UsageEvent)
      → normalize_user_id user_id ≡ ok user
      → find_by_key (trim (redemption_key settings db config id user_id)) (db.ledger.events s user)
        ≡ some (event_id, event)
      → Refuses (redeem_row settings db config now user_id (id, row) s)
  unfolding redeem_row
  redeem_row_again-Refuses s now user_id user code id row event_id event u logged =
      elim (Bool-cases row.active) [
        | inr gone ↦ (lit "invalid code", rw gone refl)
        | inl active ↦ elim (Bool-cases (ltb row.expires_at now)) [
          | inl expired ↦ (lit "code has expired", rw (active, expired) refl)
          | inr fresh ↦ elim (Bool-cases (leb row.max_redemptions row.redemption_count)) [
            | inl full ↦ (lit "code redemption limit reached", rw (active, fresh, full) refl)
            | inr room ↦
                let (e, refused) =
                  granted_again-Refuses s now user_id user code id row event_id event u logged in
                (e, simp (active, fresh, room) refused)
          ]
        ]
      ]

  -- After a redemption that succeeds, the same user redeeming the same code again is refused, at any
  -- time, however many redemptions the code has left.
  pub redeem_code_again :
      (s t : S) (now later : ℕ) (user_id user raw code : Text) (r : RedeemResult)
      → normalize_code settings raw ≡ ok code
      → normalize_user_id user_id ≡ ok user
      → redeem_code settings db config now user_id raw s ≡ ok (r, t)
      → (e : Text) × (redeem_code settings db config later user_id raw t ≡ err e)
  unfolding redeem_code
  redeem_code_again s t now later user_id user raw code r c u done =
      let (id, row, h, first) = redeem_code-Redeems s t now user_id user raw code r c u done in
      let (e, refused) =
        redeem_row_again-Refuses t later user_id user code id
          (patched_code (redeemed (suc row.redemption_count) now) row) first.event_id first.event u
          first.logged in
      (e, rw (c, first.counted) refused)

-- ===== src/Billing/Examples/Tables.antt =====
-- A small database for the tests of the ledger: a row and a list of events for each user. The id of
-- a row is its user, and the id of an event its user and its place.
use tahuna_oss.Common.{
  ℕ, zero, suc, ◌+◌, ◌-◌, ◌≤◌, ◌≡◌, refl, sym, ap, ◌∙◌, inl, inr, Option, none, some, List, [], ◌∷◌,
  ◌++◌, arith, Bool-cases, if◌then◌else◌, length,
}
use tahuna_oss.Js.Text.{Text, text_eq}
use tahuna_oss.Js.TextLaws.{text_eq→eq, text_eq_refl}
use tahuna_oss.Billing.Types.{
  CreditsRow, CreditsPatch, UsageEvent, EventPatch, patched_credits, patched_event, LedgerDb,
}
use tahuna_oss.Billing.CodeArgs.{CodeRow, CodePatch, patched_code}
use tahuna_oss.Billing.Codes.{CodesDb}
use tahuna_oss.Billing.Checkout.{CheckoutRow}

pub record LedgerTables : Type 0 where
  pub rows : Text → Option CreditsRow
  pub logs : Text → List UsageEvent
  pub codes : Text → Option CodeRow
  pub checkouts : Text → Option CheckoutRow

abbrev pub Place : Type 0
Place = Text × ℕ

abbrev with_owner : Text → Option CreditsRow → Option (Text × CreditsRow)
with_owner user none = none
with_owner user (some row) = some (user, row)

abbrev number : Text → ℕ → List UsageEvent → List (Place × UsageEvent)
number user n [] = []
number user n (e ∷ es) = ((user, n), e) ∷ number user (suc n) es

abbrev patch_at : ℕ → EventPatch → List UsageEvent → List UsageEvent
patch_at n p [] = []
patch_at zero p (e ∷ es) = patched_event p e ∷ es
patch_at (suc n) p (e ∷ es) = e ∷ patch_at n p es

abbrev update : {A : Type 0} → Text → A → (Text → A) → Text → A
update user a f v = if text_eq user v then a else f v

abbrev patch_row : CreditsPatch → Option CreditsRow → Option CreditsRow
patch_row p none = none
patch_row p (some row) = some (patched_credits p row)

pub number-append :
    (user : Text) (n : ℕ) (es : List UsageEvent) (e : UsageEvent)
    → number user n (es ++ e ∷ []) ≡ number user n es ++ ((user, n + length es), e) ∷ []
number-append user n [] e = ap (λ k. ((user, k), e) ∷ []) (omega arith)
number-append user n (d ∷ es) e =
    rw (number-append user (suc n) es e)
      (ap (λ k. ((user, n), d) ∷ number user (suc n) es ++ ((user, k), e) ∷ []) (omega arith))

abbrev Patched :
    Text
    → ℕ
    → List UsageEvent
    → List (Place × UsageEvent)
    → Text
    → ℕ
    → UsageEvent
    → List (Place × UsageEvent)
    → Type 0
Patched user n es before owner i e rest =
    (owner ≡ user)
    × (n ≤ i)
    × ((p : EventPatch)
        → number user n (patch_at (i - n) p es) ≡ before ++ ((owner, i), patched_event p e) ∷ rest)

number-Patched :
    (user : Text) (n : ℕ) (es : List UsageEvent) (before : List (Place × UsageEvent)) (owner : Text)
    (i : ℕ) (e : UsageEvent) (rest : List (Place × UsageEvent))
    → number user n es ≡ before ++ ((owner, i), e) ∷ rest
    → Patched user n es before owner i e rest
number-Patched user n [] [] owner i e rest h = cc
number-Patched user n [] (b ∷ before) owner i e rest h = cc
number-Patched user n (d ∷ es) [] owner i e rest h =
    let here : n ≡ i = cc in
    let same : user ≡ owner = cc in
    let event : d ≡ e = cc in
    let after : number user (suc n) es ≡ rest = cc in
    let none_before : i - n ≡ 0 = omega arith in
    (
      sym same,
      omega arith,
      λ p. rw none_before (rw (sym here, sym same, sym event, sym after) refl),
    )
number-Patched user n (d ∷ es) (b ∷ before) owner i e rest h =
    let head : ((user, n), d) ≡ b = cc in
    let (same, bound, all) = number-Patched user (suc n) es before owner i e rest cc in
    let further : i - n ≡ suc (i - suc n) = omega arith in
    (
      same,
      omega arith,
      λ p.
          rw (further, all p) (ap (λ x. x ∷ before ++ ((owner, i), patched_event p e) ∷ rest) head),
    )

with_owner-facts :
    (user : Text) (o : Option CreditsRow) (id : Text) (row : CreditsRow)
    → with_owner user o ≡ some (id, row)
    → (user ≡ id) × (o ≡ some row)
with_owner-facts user none id row h = cc
with_owner-facts user (some r) id row h =
    let a : user ≡ id = cc in let b : r ≡ row = cc in (a, ap some b)

abbrev tables_credits : LedgerTables → Text → Option (Text × CreditsRow)
tables_credits s user = with_owner user (s.rows user)

abbrev tables_events : LedgerTables → Text → List (Place × UsageEvent)
tables_events s user = number user 0 (s.logs user)

abbrev put_row : LedgerTables → Text → Option CreditsRow → LedgerTables
put_row s user o = record s { rows = update user o s.rows }

abbrev put_log : LedgerTables → Text → List UsageEvent → LedgerTables
put_log s user es = record s { logs = update user es s.logs }

pub credits-put_row :
    (s : LedgerTables) (owner : Text) (o : Option CreditsRow) (user : Text)
    → tables_credits (put_row s owner o) user
      ≡ (if text_eq owner user then with_owner owner o else tables_credits s user)
credits-put_row s owner o user = elim (Bool-cases (text_eq owner user)) [
  | inl e ↦ rw (e, sym (text_eq→eq owner user e)) refl
  | inr e ↦ rw e refl
]

pub events-put_log :
    (s : LedgerTables) (owner : Text) (es : List UsageEvent) (user : Text)
    → tables_events (put_log s owner es) user
      ≡ (if text_eq owner user then number owner 0 es else tables_events s user)
events-put_log s owner es user = elim (Bool-cases (text_eq owner user)) [
  | inl e ↦ rw (e, sym (text_eq→eq owner user e)) refl
  | inr e ↦ rw e refl
]

pub credits-patch :
    (s : LedgerTables) (owner id : Text) (row : CreditsRow) (p : CreditsPatch) (user : Text)
    → tables_credits s owner ≡ some (id, row)
    → tables_credits (put_row s id (patch_row p (s.rows id))) user
      ≡ (if text_eq owner user then some (id, patched_credits p row) else tables_credits s user)
credits-patch s owner id row p user h =
    let (same, found) = with_owner-facts owner (s.rows owner) id row h in
    rw (sym same) (credits-put_row s owner (patch_row p (s.rows owner)) user ∙ rw found refl)

pub events-patch :
    (s : LedgerTables) (owner : Text) (before rest : List (Place × UsageEvent)) (id : Place)
    (e : UsageEvent) (p : EventPatch) (user : Text)
    → tables_events s owner ≡ before ++ (id, e) ∷ rest
    → tables_events (put_log s id.0 (patch_at id.1 p (s.logs id.0))) user ≡ (
        if text_eq owner user
        then before ++ (id, patched_event p e) ∷ rest
        else tables_events s user)
events-patch s owner before rest (u, i) e p user h =
    let (same, bound, all) = number-Patched owner 0 (s.logs owner) before u i e rest h in
    let exact : i - 0 ≡ i = omega arith in
    let patched : number owner 0 (patch_at i p (s.logs owner))
        ≡ before ++ ((u, i), patched_event p e) ∷ rest =
      rw exact at (all p) in
    rw (sym same) (
      events-put_log s u (patch_at i p (s.logs u)) user
      ∙ ap (λ l. if text_eq u user then l else tables_events s user) (rw (sym same) at patched))

pub events-insert :
    (s : LedgerTables) (e : UsageEvent) (user : Text)
    → tables_events (put_log s e.user_id (s.logs e.user_id ++ e ∷ [])) user ≡ (
        if text_eq e.user_id user
        then tables_events s user ++ ((e.user_id, length (s.logs e.user_id)), e) ∷ []
        else tables_events s user)
events-insert s e user = elim (Bool-cases (text_eq e.user_id user)) [
  | inl h ↦
      let zero_more : 0 + length (s.logs e.user_id) ≡ length (s.logs e.user_id) = omega arith in
      rw (h, sym (text_eq→eq e.user_id user h))
        (number-append e.user_id 0 (s.logs e.user_id) e ∙ rw zero_more refl)
  | inr h ↦ rw h refl
]

abbrev pub tables : LedgerDb LedgerTables Text Place
tables = record {
  credits = tables_credits;
  events = tables_events;
  insert_credits = λ s row. (put_row s row.user_id (some row), row.user_id);
  patch_credits = λ s id p. put_row s id (patch_row p (s.rows id));
  insert_event = λ s e.
      (put_log s e.user_id (s.logs e.user_id ++ e ∷ []), (e.user_id, length (s.logs e.user_id)));
  patch_event = λ s id p. put_log s id.0 (patch_at id.1 p (s.logs id.0));
  get_credits = λ s id. s.rows id;
  credits_id_text = λ id. id;
  get-insert_credits = λ s row. rw (text_eq_refl row.user_id) refl;
  get-insert_event = λ s e id. refl;
  credits-insert_credits = λ s row user h. credits-put_row s row.user_id (some row) user;
  events-insert_credits = λ s row user. refl;
  credits-patch_credits = credits-patch;
  events-patch_credits = λ s id p user. refl;
  events-insert_event = events-insert;
  credits-insert_event = λ s e user. refl;
  events-patch_event = events-patch;
  credits-patch_event = λ s id p user. refl;
}

abbrev with_code : Text → Option CodeRow → Option (Text × CodeRow)
with_code code none = none
with_code code (some row) = some (code, row)

abbrev patch_code_row : CodePatch → Option CodeRow → Option CodeRow
patch_code_row p none = none
patch_code_row p (some row) = some (patched_code p row)

abbrev code_of : LedgerTables → Text → Option (Text × CodeRow)
code_of s code = with_code code (s.codes code)

abbrev put_code : LedgerTables → Text → Option CodeRow → LedgerTables
put_code s code o = record s { codes = update code o s.codes }

with_code-facts :
    (code : Text) (o : Option CodeRow) (id : Text) (row : CodeRow)
    → with_code code o ≡ some (id, row)
    → (code ≡ id) × (o ≡ some row)
with_code-facts code none id row h = cc
with_code-facts code (some r) id row h =
    let a : code ≡ id = cc in let b : r ≡ row = cc in (a, ap some b)

pub code-patch :
    (s : LedgerTables) (code id : Text) (row : CodeRow) (p : CodePatch)
    → code_of s code ≡ some (id, row)
    → code_of (put_code s id (patch_code_row p (s.codes id))) code ≡ some (id, patched_code p row)
code-patch s code id row p h =
    let (same, found) = with_code-facts code (s.codes code) id row h in
    rw (sym same, text_eq_refl code, found) refl

abbrev pub code_tables : CodesDb LedgerTables Text Place Text
code_tables = record {
  ledger = tables;
  code_by_code = code_of;
  insert_code = λ s row. put_code s row.code (some row);
  patch_code = λ s id p. put_code s id (patch_code_row p (s.codes id));
  code_id_text = λ id. id;
  code_by_code-patch_code = code-patch;
  events-patch_code = λ s id p user. refl;
  code-insert_credits = λ s row code. refl;
  code-patch_credits = λ s id p code. refl;
  code-insert_event = λ s e code. refl;
}

abbrev pub no_rows : LedgerTables
no_rows = record {
  rows = λ user. none;
  logs = λ user. [];
  codes = λ code. none;
  checkouts = λ session. none;
}

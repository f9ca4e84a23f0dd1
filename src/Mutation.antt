-- ===== src/Mutation.antt =====
-- A mutation of the backend: it reads and writes the database, and may throw. The database rolls
-- back a mutation that throws, so an error has no state.
use tahuna_oss.Common.{◌≡◌, refl, ◌⊎◌, inl, inr, Bool, true, false, Option, none, some}
use tahuna_oss.Js.Text.{Text}

pub data Result {ℓ} (A : Type ℓ) : Type ℓ where
  ok : A → Result A
  err : Text → Result A

abbrev pub Mutation : Type 0 → Type 0 → Type 0
Mutation S A = S → Result (A × S)

infixl 5 ◌>>=◌ ◌>>◌
abbrev pub ◌>>=◌ : {S A B : Type 0} → Mutation S A → (A → Mutation S B) → Mutation S B
◌>>=◌ m f s = elim (m s) [ ok (a, t) ↦ f a t | err e ↦ err e ]

abbrev pub ◌>>◌ : {S A B : Type 0} → Mutation S A → Mutation S B → Mutation S B
m >> k = m >>= λ _. k

module _ {S : Type 0} where
  abbrev pub pure : {A : Type 0} → A → Mutation S A
  pure a s = ok (a, s)

  abbrev pub throw : {A : Type 0} → Text → Mutation S A
  throw e s = err e

  abbrev pub gets : {A : Type 0} → (S → A) → Mutation S A
  gets f s = ok (f s, s)

  abbrev pub modify : (S → S) → Mutation S (Unit {0})
  modify f s = ok (tt, f s)

  abbrev pub throw_if : Bool → Text → Mutation S (Unit {0})
  throw_if true e s = err e
  throw_if false e s = ok (tt, s)

  -- A helper that throws but does not read the database.
  abbrev pub lift : {A : Type 0} → Result A → Mutation S A
  lift (ok a) s = ok (a, s)
  lift (err e) s = err e

  abbrev pub or_throw : {A : Type 0} → Option A → Text → Mutation S A
  or_throw none e s = err e
  or_throw (some a) e s = ok (a, s)

-- The database after a mutation: as it was, where the mutation threw.
abbrev pub after : {S A : Type 0} → Result (A × S) → S → S
after (ok (a, t)) s = t
after (err e) s = s

-- A predicate of the database holds after a mutation that begins with a step which does not read
-- the database, if it holds before and after the rest.
pub after-lift :
    {S A B : Type 0} (P : S → Type 0) (r : Result A) (f : A → Mutation S B) (s : S)
    → P s
    → ((a : A) → r ≡ ok a → P (after (f a s) s))
    → P (after ((lift r >>= f) s) s)
after-lift P (ok a) f s h k = k a refl
after-lift P (err e) f s h k = h

pub after-throw_if :
    {S B : Type 0} (P : S → Type 0) (c : Bool) (e : Text) (m : Mutation S B) (s : S)
    → P s
    → P (after (m s) s)
    → P (after ((throw_if c e >> m) s) s)
after-throw_if P true e m s h k = h
after-throw_if P false e m s h k = k

pub after-bind :
    {S A B : Type 0} (P : S → Type 0) (m : Mutation S A) (f : A → Mutation S B) (s s' t : S) (a : A)
    → m s ≡ ok (a, t)
    → P (after (f a t) s')
    → P (after ((m >>= f) s) s')
after-bind P m f s s' t a e h = rw (e, ◌>>=◌) h

-- What a mutation that returns did: its first step returned, and the rest returned from there.
abbrev pub Returns : {S A B : Type 0} → Result (A × S) → (A → Mutation S B) → B → S → Type 0
Returns {S} {A} m f b t = (a : A) × (s : S) × (m ≡ ok (a, s)) × (f a s ≡ ok (b, t))

pub bind-Returns :
    {S A B : Type 0} (m : Mutation S A) (f : A → Mutation S B) (s t : S) (b : B)
    → (m >>= f) s ≡ ok (b, t)
    → Returns (m s) f b t
bind-Returns {S} {A} {B} m f s t b h = of_result (m s) h
  where
    of_result :
        (r : Result (A × S))
        → elim r [ ok (a, s') ↦ f a s' | err e ↦ err e ] ≡ ok (b, t)
        → Returns r f b t
    of_result (ok (a, s')) k = (a, s', refl, k)
    of_result (err e) k = cc

pub bind-ok :
    {S A B : Type 0} (m : Mutation S A) (f : A → Mutation S B) (s t : S) (a : A)
    → m s ≡ ok (a, t)
    → (m >>= f) s ≡ f a t
bind-ok m f s t a h = rw (h, ◌>>=◌) refl

-- A helper that calls another one that may throw.
abbrev pub and_then : {A B : Type 0} → Result A → (A → Result B) → Result B
and_then (ok a) f = f a
and_then (err e) f = err e

pub lift-Returns :
    {S A B : Type 0} (r : Result A) (f : A → Mutation S B) (s t : S) (b : B)
    → (lift r >>= f) s ≡ ok (b, t)
    → (a : A) × (r ≡ ok a) × (f a s ≡ ok (b, t))
lift-Returns (ok a) f s t b h = (a, refl, h)
lift-Returns (err e) f s t b h = cc

pub throw_if-Returns :
    {S B : Type 0} (c : Bool) (e : Text) (m : Mutation S B) (s t : S) (b : B)
    → (throw_if c e >> m) s ≡ ok (b, t)
    → (c ≡ false) × (m s ≡ ok (b, t))
throw_if-Returns true e m s t b h = cc
throw_if-Returns false e m s t b h = (refl, h)

pub Result-cases : {A : Type 0} (r : Result A) → ((e : Text) × (r ≡ err e)) ⊎ ((a : A) × (r ≡ ok a))
Result-cases (ok a) = inr (a, refl)
Result-cases (err e) = inl (e, refl)

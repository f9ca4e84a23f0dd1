-- ===== src/Jobs/Keys.antt =====
-- The idempotency keys of web/convex/core/jobQueue.ts as strings that can be read back.
use mathlib.Core.Path.{subst}
use tahuna_oss.Common.{
  ◌≤◌, ℕ, ◌≡◌, refl, sym, ap, ◌≢◌, Bool, true, false, Option, none, some, List, [], ◌∷◌, map, arith,
  All, All-mono,
}
use tahuna_oss.Js.Text.{Text, lit, or_text, trim, decimal}
use tahuna_oss.Js.TextLaws.{
  IsFree, join-injective, decimal-injective, decimal-IsDigit, decimal-ne-nil, IsDigit, trim-decimal,
  trim-All,
}
use tahuna_oss.Js.Number.{Number, Whole, whole, whole_text}
use tahuna_oss.Jobs.Types.{CoreJobType, job_type_text}
use tahuna_oss.Jobs.Create.{
  KeyPart, flag, job_key_part, attempt_part, run_job_idempotency_key, normalize_attempt,
  create_terminate_machine_job,
}

pub job_type_text-injective : (a b : CoreJobType) → job_type_text a ≡ job_type_text b → a ≡ b
unfolding job_type_text lit
job_type_text-injective a b h = ground arith

job_type_text-IsFree : (a : CoreJobType) → IsFree b':' (job_type_text a)
unfolding job_type_text lit
job_type_text-IsFree CoreJobType.provision_run = omega arith
job_type_text-IsFree _ = omega arith

-- The part of a key that an attempt becomes.
attempt_text : Option Whole → Text
attempt_text none = lit "none"
attempt_text (some Whole.nan) = lit "NaN"
attempt_text (some Whole.infinite) = lit "Infinity"
attempt_text (some (whole n)) = decimal n

or_text_of_ne_nil : (s t : Text) → s ≢ [] → or_text s t ≡ s
or_text_of_ne_nil [] t h = absurd (h refl)
or_text_of_ne_nil (c ∷ s) t h = refl

job_key_part-whole : (n : ℕ) → job_key_part (KeyPart.number (whole n)) ≡ decimal n
unfolding job_key_part whole_text
job_key_part-whole n = rw (trim-decimal n) (or_text_of_ne_nil _ _ (decimal-ne-nil n))

job_key_part-attempt : (o : Option Whole) → job_key_part (attempt_part o) ≡ attempt_text o
unfolding job_key_part whole_text attempt_text trim lit
job_key_part-attempt none = refl
job_key_part-attempt (some Whole.nan) = refl
job_key_part-attempt (some Whole.infinite) = refl
job_key_part-attempt (some (whole n)) = job_key_part-whole n

decimal_ne_letter : (n c : ℕ) (s : Text) → 58 ≤ c → decimal n ≢ c ∷ s
decimal_ne_letter n c s h e =
    let digits : All IsDigit (c ∷ s) = subst (All IsDigit) e (decimal-IsDigit n) in omega arith

attempt_text-injective : (o p : Option Whole) → attempt_text o ≡ attempt_text p → o ≡ p
unfolding attempt_text lit
attempt_text-injective (some (whole m)) (some (whole n)) h =
    ap (λ k. some (whole k)) (decimal-injective m n h)
attempt_text-injective (some (whole m)) none h = absurd (decimal_ne_letter m _ _ (omega arith) h)
attempt_text-injective (some (whole m)) (some Whole.nan) h =
    absurd (decimal_ne_letter m _ _ (omega arith) h)
attempt_text-injective (some (whole m)) (some Whole.infinite) h =
    absurd (decimal_ne_letter m _ _ (omega arith) h)
attempt_text-injective none (some (whole m)) h =
    absurd (decimal_ne_letter m _ _ (omega arith) (sym h))
attempt_text-injective (some Whole.nan) (some (whole m)) h =
    absurd (decimal_ne_letter m _ _ (omega arith) (sym h))
attempt_text-injective (some Whole.infinite) (some (whole m)) h =
    absurd (decimal_ne_letter m _ _ (omega arith) (sym h))
attempt_text-injective o p h = ground arith

IsDigit-not_colon : (c : ℕ) → IsDigit c → c ≢ b':'
IsDigit-not_colon c h = omega arith

attempt_text-IsFree : (o : Option Whole) → IsFree b':' (attempt_text o)
unfolding attempt_text lit
attempt_text-IsFree (some (whole n)) =
    All-mono IsDigit _ IsDigit-not_colon (decimal n) (decimal-IsDigit n)
attempt_text-IsFree none = omega arith
attempt_text-IsFree (some Whole.nan) = omega arith
attempt_text-IsFree (some Whole.infinite) = omega arith

or_text-IsFree : (s t : Text) → IsFree b':' s → IsFree b':' t → IsFree b':' (or_text s t)
or_text-IsFree [] t h k = k
or_text-IsFree (c ∷ s) t h k = h

machine_part-IsFree : (m : Text) → IsFree b':' m → IsFree b':' (job_key_part (KeyPart.text m))
unfolding job_key_part lit
machine_part-IsFree m h = or_text-IsFree (trim m) _ (trim-All _ m h) (omega arith)

flag-IsFree : (f : Bool) → IsFree b':' (job_key_part (flag f))
unfolding job_key_part lit trim
flag-IsFree true = omega arith
flag-IsFree false = omega arith

flag-injective : (f g : Bool) → job_key_part (flag f) ≡ job_key_part (flag g) → f ≡ g
unfolding job_key_part lit trim
flag-injective f g h = ground arith

lit_run-IsFree : IsFree b':' (lit "run")
unfolding lit
lit_run-IsFree = omega arith

-- The parts of a run's key can be read back from the key.
pub run_job_idempotency_key-injective :
    (r r' : Text) (a a' : CoreJobType) (ps ps' : List KeyPart)
    → IsFree b':' r
    → IsFree b':' r'
    → All (IsFree b':') (map job_key_part ps)
    → All (IsFree b':') (map job_key_part ps')
    → run_job_idempotency_key r a ps ≡ run_job_idempotency_key r' a' ps'
    → (r ≡ r') × (a ≡ a') × (map job_key_part ps ≡ map job_key_part ps')
unfolding run_job_idempotency_key
run_job_idempotency_key-injective r r' a a' ps ps' h h' k k' e =
    let parts =
      join-injective b':' _ _ _ _ (lit_run-IsFree, (h, (job_type_text-IsFree a, k)))
        (lit_run-IsFree, (h', (job_type_text-IsFree a', k'))) e in
    (cc, job_type_text-injective a a' (cc), cc)

-- Two termination jobs have one idempotency key only if they are for the same run, the same
-- trimmed machine id, the same force flag and the same normalised attempt, where run ids and
-- machine ids hold no colon.
pub create_terminate_machine_job-key_injective :
    (r r' m m' : Text) (d d' : Option Number) (f f' : Bool) (n n' : Option Number)
    → IsFree b':' r
    → IsFree b':' r'
    → IsFree b':' m
    → IsFree b':' m'
    → (create_terminate_machine_job r d m f n).idempotency_key
      ≡ (create_terminate_machine_job r' d' m' f' n').idempotency_key
    → (r ≡ r')
      × (job_key_part (KeyPart.text m) ≡ job_key_part (KeyPart.text m'))
      × (f ≡ f')
      × (normalize_attempt n ≡ normalize_attempt n')
unfolding create_terminate_machine_job
create_terminate_machine_job-key_injective r r' m m' d d' f f' n n' hr hr' hm hm' e =
    let o = normalize_attempt n in
    let o' = normalize_attempt n' in
    let key =
      run_job_idempotency_key-injective r r' _ _ _ _ hr hr'
        (machine_part-IsFree m hm, (flag-IsFree f, (attempt-IsFree o, tt)))
        (machine_part-IsFree m' hm', (flag-IsFree f', (attempt-IsFree o', tt))) e in
    (
      key.0,
      cc key.2,
      flag-injective f f' (cc key.2),
      attempt_text-injective o o' (cc (key.2, job_key_part-attempt o, job_key_part-attempt o')),
    )
  where
    attempt-IsFree : (o : Option Whole) → IsFree b':' (job_key_part (attempt_part o))
    attempt-IsFree o = rw (job_key_part-attempt o) (attempt_text-IsFree o)

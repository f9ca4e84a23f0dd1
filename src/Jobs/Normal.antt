-- ===== src/Jobs/Normal.antt =====
-- The normal form of the artifact keys of a finalisation job, `normalizeArtifactKeys` of
-- web/convex/core/jobQueue.ts.
use tahuna_oss.Common.{
  ◌≡◌, refl, sym, ap, ◌∙◌, inl, inr, Bool, true, false, not, ◌&&◌, ◌||◌, Option, List, [], ◌∷◌,
  arith, All, Bool-cases,
}
use tahuna_oss.Js.Text.{Text, text_eq, mem_text}
use tahuna_oss.Js.TextLaws.{text_eq→eq, text_eq_refl, text_eq_comm}
use tahuna_oss.Js.Number.{Number}
use tahuna_oss.Jobs.Create.{
  text_le, insert_sorted, sort_texts, dedup_from, trim_keys, normalize_artifact_keys,
  create_finalize_artifact_job,
}

text_le_refl : (s : Text) → text_le s s ≡ true
unfolding text_le
text_le_refl [] = refl
text_le_refl (c ∷ s) = ground (arith, text_le_refl s)

text_le_total : (s t : Text) → text_le s t ≡ false → text_le t s ≡ true
unfolding text_le
text_le_total [] t h = ground arith
text_le_total (c ∷ s) [] h = refl
text_le_total (c ∷ s) (d ∷ t) h = ground (arith, text_le_total s t)

text_le_trans : (s t u : Text) → text_le s t ≡ true → text_le t u ≡ true → text_le s u ≡ true
unfolding text_le
text_le_trans [] t u h k = refl
text_le_trans (c ∷ s) [] u h k = ground arith
text_le_trans (c ∷ s) (d ∷ t) [] h k = ground arith
text_le_trans (c ∷ s) (d ∷ t) (e ∷ u) h k = ground (arith, text_le_trans s t u)

text_le_antisymm : (s t : Text) → text_le s t ≡ true → text_le t s ≡ true → text_eq s t ≡ true
unfolding text_le text_eq
text_le_antisymm [] [] h k = refl
text_le_antisymm [] (d ∷ t) h k = ground arith
text_le_antisymm (c ∷ s) [] h k = ground arith
text_le_antisymm (c ∷ s) (d ∷ t) h k = ground (arith, text_le_antisymm s t)

-- Each member comes strictly before the later ones.
abbrev pub IsIncreasing : List Text → Type 0
IsIncreasing [] = Unit
IsIncreasing (x ∷ xs) = All (λ y. (text_le x y ≡ true) × (text_eq x y ≡ false)) xs × IsIncreasing xs

mem-insert_sorted :
    (t x : Text) (xs : List Text) → mem_text t (insert_sorted x xs) ≡ (text_eq t x || mem_text t xs)
unfolding mem_text insert_sorted
mem-insert_sorted t x [] = refl
mem-insert_sorted t x (y ∷ ys) = ground (arith, mem-insert_sorted t x ys)

mem-sort_texts : (t : Text) (xs : List Text) → mem_text t (sort_texts xs) ≡ mem_text t xs
unfolding mem_text sort_texts
mem-sort_texts t [] = refl
mem-sort_texts t (x ∷ xs) =
    mem-insert_sorted t x (sort_texts xs) ∙ ap (λ b. text_eq t x || b) (mem-sort_texts t xs)

abbrev HasNoRepeats : List Text → Type 0
HasNoRepeats [] = Unit
HasNoRepeats (k ∷ ks) = (mem_text k ks ≡ false) × HasNoRepeats ks

mem-dedup_from :
    (t : Text) (seen xs : List Text)
    → mem_text t (dedup_from seen xs) ≡ (mem_text t xs && not (mem_text t seen))
unfolding mem_text dedup_from
mem-dedup_from t seen [] = refl
mem-dedup_from t seen (x ∷ xs) = elim (Bool-cases (text_eq t x)) [
  | inl e ↦ ground (
    arith,
    mem-dedup_from t seen xs,
    mem-dedup_from t (x ∷ seen) xs,
    ap (λ y. mem_text y seen) (text_eq→eq t x e),
  )
  | inr e ↦ ground (arith, mem-dedup_from t seen xs, mem-dedup_from t (x ∷ seen) xs)
]

dedup_from-HasNoRepeats : (seen xs : List Text) → HasNoRepeats (dedup_from seen xs)
unfolding mem_text dedup_from
dedup_from-HasNoRepeats seen [] = tt
dedup_from-HasNoRepeats seen (x ∷ xs) = ground (
  arith,
  mem-dedup_from x (x ∷ seen) xs,
  text_eq_refl x,
  dedup_from-HasNoRepeats seen xs,
  dedup_from-HasNoRepeats (x ∷ seen) xs,
)

-- The order between two neighbours of an increasing list.
abbrev IsBefore : Text → Text → Type 0
IsBefore x y = (text_le x y ≡ true) × (text_eq x y ≡ false)

IsBefore-All :
    (x y : Text) (ys : List Text)
    → text_le x y ≡ true
    → mem_text x ys ≡ false
    → All (IsBefore y) ys
    → All (IsBefore x) ys
unfolding mem_text
IsBefore-All x y [] l m h = tt
IsBefore-All x y (z ∷ zs) l m h =
    ((text_le_trans x y z l h.0.0, ground arith), IsBefore-All x y zs l (ground arith) h.1)

All-insert_sorted :
    (P : Text → Type 0) (x : Text) (ys : List Text) → P x → All P ys → All P (insert_sorted x ys)
unfolding insert_sorted
All-insert_sorted P x [] p h = (p, tt)
All-insert_sorted P x (y ∷ ys) p h = elim (Bool-cases (text_le x y)) [
  | inl e ↦ rw e (p, h)
  | inr e ↦ rw e (h.0, All-insert_sorted P x ys p h.1)
]

insert_sorted-IsIncreasing :
    (x : Text) (ys : List Text)
    → mem_text x ys ≡ false
    → IsIncreasing ys
    → IsIncreasing (insert_sorted x ys)
unfolding insert_sorted mem_text
insert_sorted-IsIncreasing x [] m h = (tt, tt)
insert_sorted-IsIncreasing x (y ∷ ys) m h = elim (Bool-cases (text_le x y)) [
  | inl e ↦ rw e (((e, ground arith), IsBefore-All x y ys e (ground arith) h.0), h)
  | inr e ↦
      let apart : IsBefore y x = (text_le_total x y e, ground (arith, text_eq_comm x y)) in
      rw e (
        All-insert_sorted (IsBefore y) x ys apart h.0,
        insert_sorted-IsIncreasing x ys (ground arith) h.1,
      )
]

sort_texts-IsIncreasing : (xs : List Text) → HasNoRepeats xs → IsIncreasing (sort_texts xs)
unfolding sort_texts
sort_texts-IsIncreasing [] h = tt
sort_texts-IsIncreasing (x ∷ xs) h =
    insert_sorted-IsIncreasing x (sort_texts xs) (mem-sort_texts x xs ∙ h.0)
      (sort_texts-IsIncreasing xs h.1)

not_mem_of_IsBefore : (x : Text) (xs : List Text) → All (IsBefore x) xs → mem_text x xs ≡ false
unfolding mem_text
not_mem_of_IsBefore x [] h = refl
not_mem_of_IsBefore x (y ∷ ys) h = ground (arith, not_mem_of_IsBefore x ys h.1)

le_of_IsBefore :
    (x t : Text) (xs : List Text) → All (IsBefore x) xs → mem_text t xs ≡ true → text_le x t ≡ true
unfolding mem_text
le_of_IsBefore x t [] h m = ground arith
le_of_IsBefore x t (y ∷ ys) h m = elim (Bool-cases (text_eq t y)) [
  | inl e ↦ rw (text_eq→eq t y e) h.0.0
  | inr e ↦ le_of_IsBefore x t ys h.1 (ground arith)
]

heads_eq :
    (x y : Text) (xs ys : List Text)
    → All (IsBefore x) xs
    → All (IsBefore y) ys
    → mem_text x (y ∷ ys) ≡ true
    → mem_text y (x ∷ xs) ≡ true
    → x ≡ y
unfolding mem_text
heads_eq x y xs ys h k m n = elim (Bool-cases (text_eq x y)) [
  | inl e ↦ text_eq→eq x y e
  | inr e ↦
      let le = le_of_IsBefore y x ys k (ground arith) in
      let ge = le_of_IsBefore x y xs h (ground (arith, text_eq_comm x y)) in
      text_eq→eq x y (text_le_antisymm x y ge le)
]

tails_mem :
    (t x : Text) (xs ys : List Text)
    → mem_text x xs ≡ false
    → mem_text x ys ≡ false
    → mem_text t (x ∷ xs) ≡ mem_text t (x ∷ ys)
    → mem_text t xs ≡ mem_text t ys
unfolding mem_text
tails_mem t x xs ys m n e = elim (Bool-cases (text_eq t x)) [
  | inl s ↦ rw (text_eq→eq t x s) (m ∙ sym n)
  | inr s ↦ ground arith
]

-- An increasing list is determined by its members.
increasing_unique :
    (xs ys : List Text)
    → IsIncreasing xs
    → IsIncreasing ys
    → ((t : Text) → mem_text t xs ≡ mem_text t ys)
    → xs ≡ ys
increasing_unique [] [] h k e = refl
increasing_unique [] (y ∷ ys) h k e = unfold mem_text in ground (arith, e y, text_eq_refl y)
increasing_unique (x ∷ xs) [] h k e = unfold mem_text in ground (arith, e x, text_eq_refl x)
increasing_unique (x ∷ xs) (y ∷ ys) h k e =
    let same : x ≡ y =
      heads_eq x y xs ys h.0 k.0 (sym (e x) ∙ mem_head x xs) (e y ∙ mem_head y ys) in
    let apart : mem_text x ys ≡ false = rw same (not_mem_of_IsBefore y ys k.0) in
    let tails = increasing_unique xs ys h.1 k.1 (λ t.
      tails_mem t x xs ys (not_mem_of_IsBefore x xs h.0) apart
        (e t ∙ ap (λ z. mem_text t (z ∷ ys)) (sym same))) in
    cc
  where
    mem_head : (t : Text) (ts : List Text) → mem_text t (t ∷ ts) ≡ true
    mem_head t ts = unfold mem_text in ground (arith, text_eq_refl t)

mem-dedup_nil : (t : Text) (xs : List Text) → mem_text t (dedup_from [] xs) ≡ mem_text t xs
mem-dedup_nil t xs = mem-dedup_from t [] xs ∙ and_not_nil t (mem_text t xs)
  where
    and_not_nil : (t : Text) (b : Bool) → (b && not (mem_text t [])) ≡ b
    and_not_nil t b = unfold mem_text in ground arith

-- The normal form of the keys has the trimmed keys that are not empty, in increasing order.
pub normalize_artifact_keys_lem :
    (keys : List Text)
    → IsIncreasing (normalize_artifact_keys keys)
      × ((t : Text) → mem_text t (normalize_artifact_keys keys) ≡ mem_text t (trim_keys keys))
unfolding normalize_artifact_keys
normalize_artifact_keys_lem keys = (
  sort_texts-IsIncreasing _ (dedup_from-HasNoRepeats [] (trim_keys keys)),
  λ t. mem-sort_texts t (dedup_from [] (trim_keys keys)) ∙ mem-dedup_nil t (trim_keys keys),
)

-- The keys of a finalisation job, in any order and however often, give one job and one idempotency
-- key: two lists with the same trimmed keys cannot be told apart.
pub create_finalize_artifact_job_canonical :
    (run_id : Text) (keys keys' : List Text) (delay_ms : Option Number)
    → ((t : Text) → mem_text t (trim_keys keys) ≡ mem_text t (trim_keys keys'))
    → create_finalize_artifact_job run_id keys delay_ms
      ≡ create_finalize_artifact_job run_id keys' delay_ms
unfolding create_finalize_artifact_job
create_finalize_artifact_job_canonical run_id keys keys' delay_ms h =
    let (sorted, members) = normalize_artifact_keys_lem keys in
    let (sorted', members') = normalize_artifact_keys_lem keys' in
    let same : normalize_artifact_keys keys ≡ normalize_artifact_keys keys' =
      increasing_unique _ _ sorted sorted' (λ t. members t ∙ h t ∙ sym (members' t)) in
    rw same

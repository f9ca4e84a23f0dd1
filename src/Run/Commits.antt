-- ===== src/Run/Commits.antt =====
-- The commit of artifacts, `planRuntimeArtifactCommit` of web/convex/core/runLifecyclePlan.ts.
use tahuna_oss.Common.{
  ◌≡◌, refl, sym, ◌∙◌, inl, inr, true, false, ◌||◌, none, some, List, [], ◌∷◌, ◌++◌, arith, length,
  All, All-append, All-mono, Bool-cases, if◌then◌else◌, ltb,
}
use mathlib.Core.List.{append_assoc, append-nil}
use tahuna_oss.Js.Text.{Text, text_eq, mem_text}
use tahuna_oss.Js.TextLaws.{text_eq_refl, text_eq_comm}
use tahuna_oss.Run.Artifacts.{
  is_run_artifact_key, RuntimeArtifact, ArtifactLoop, artifact_step, artifact_loop,
  plan_runtime_artifact_commit,
}

-- The artifacts whose keys are below the output path, in order.
abbrev pub below_output : Text → List RuntimeArtifact → List RuntimeArtifact
below_output path [] = []
below_output path (a ∷ more) =
    let rest = below_output path more in if is_run_artifact_key path a.key then a ∷ rest else rest

-- No key twice.
abbrev pub HasNoRepeats : List Text → Type 0
HasNoRepeats [] = Unit
HasNoRepeats (k ∷ ks) = (mem_text k ks ≡ false) × HasNoRepeats ks

mem_text-append :
    (t : Text) (xs ys : List Text) → mem_text t (xs ++ ys) ≡ (mem_text t xs || mem_text t ys)
unfolding mem_text
mem_text-append t [] ys = refl
mem_text-append t (x ∷ xs) ys = ground (arith, mem_text-append t xs ys)

artifact_loop-accepted :
    (path : Text) (s : ArtifactLoop) (xs : List RuntimeArtifact)
    → (artifact_loop path s xs).accepted ≡ s.accepted ++ below_output path xs
unfolding artifact_loop
artifact_loop-accepted path s [] = sym (append-nil s.accepted)
artifact_loop-accepted path s (x ∷ xs) =
    artifact_loop-accepted path (artifact_step path s x) xs ∙ accepted_step path s x xs
  where
    accepted_step :
        (path : Text) (s : ArtifactLoop) (x : RuntimeArtifact) (xs : List RuntimeArtifact)
        → (artifact_step path s x).accepted ++ below_output path xs
          ≡ s.accepted ++ below_output path (x ∷ xs)
    accepted_step path s x xs =
        unfold artifact_step in
        ground (arith, append_assoc s.accepted (x ∷ []) (below_output path xs))

HasNoRepeats-append :
    (ks : List Text) (k : Text)
    → HasNoRepeats ks
    → mem_text k ks ≡ false
    → HasNoRepeats (ks ++ k ∷ [])
unfolding mem_text
HasNoRepeats-append [] k h m = (refl, tt)
HasNoRepeats-append (x ∷ ks) k h m = (
  ground (arith, mem_text-append x ks (k ∷ []), text_eq_comm x k),
  HasNoRepeats-append ks k h.1 (ground arith),
)

module _ (path : Text) (existing : List Text) where
  record CommitInv (s : ArtifactLoop) : Type 0 where
    seen_iff : (t : Text) → mem_text t s.seen ≡ (mem_text t existing || mem_text t s.new_keys)
    fresh : HasNoRepeats s.new_keys
    apart : All (λ k. mem_text k existing ≡ false) s.new_keys
    below : All (λ k. is_run_artifact_key path k ≡ true) s.new_keys
    covered : All (λ a. (mem_text a.key existing || mem_text a.key s.new_keys) ≡ true) s.accepted

  mem_new :
      (t k : Text) (ks : List Text) → mem_text t (ks ++ k ∷ []) ≡ (mem_text t ks || text_eq t k)
  unfolding mem_text
  mem_new t k ks = ground (arith, mem_text-append t ks (k ∷ []))

  CommitInv-skip :
      (s : ArtifactLoop) (x : RuntimeArtifact)
      → CommitInv s
      → mem_text x.key s.seen ≡ true
      → CommitInv (record s { accepted = s.accepted ++ x ∷ [] })
  CommitInv-skip s x i m = record {
    seen_iff = i.seen_iff;
    fresh = i.fresh;
    apart = i.apart;
    below = i.below;
    covered = All-append _ s.accepted (x ∷ []) i.covered (sym (i.seen_iff x.key) ∙ m, tt);
  }

  CommitInv-add :
      (s : ArtifactLoop) (x : RuntimeArtifact)
      → CommitInv s
      → is_run_artifact_key path x.key ≡ true
      → mem_text x.key s.seen ≡ false
      → CommitInv (record {
        seen = x.key ∷ s.seen;
        accepted = s.accepted ++ x ∷ [];
        new_keys = s.new_keys ++ x.key ∷ [];
      })
  unfolding mem_text
  CommitInv-add s x i b m = record {
    seen_iff = λ t. ground (arith, mem_new t x.key s.new_keys, i.seen_iff t);
    fresh = HasNoRepeats-append s.new_keys x.key i.fresh (ground (arith, i.seen_iff x.key));
    apart = All-append _ s.new_keys _ i.apart (ground (arith, i.seen_iff x.key), tt);
    below = All-append _ s.new_keys _ i.below (b, tt);
    covered =
        All-append _ s.accepted _ (All-mono _ _ older s.accepted i.covered)
          (ground (arith, mem_new x.key x.key s.new_keys, text_eq_refl x.key), tt);
  }
    where
      older :
          (a : RuntimeArtifact)
          → (mem_text a.key existing || mem_text a.key s.new_keys) ≡ true
          → (mem_text a.key existing || mem_text a.key (s.new_keys ++ x.key ∷ [])) ≡ true
      older a h = ground (arith, mem_new a.key x.key s.new_keys)

  artifact_step-CommitInv :
      (s : ArtifactLoop) (x : RuntimeArtifact) → CommitInv s → CommitInv (artifact_step path s x)
  unfolding artifact_step
  artifact_step-CommitInv s x i = elim (Bool-cases (is_run_artifact_key path x.key)) [
    | inr out ↦ rw out i
    | inl b ↦ elim (Bool-cases (mem_text x.key s.seen)) [
      | inl old ↦ rw (b, old) (CommitInv-skip s x i old)
      | inr new ↦ rw (b, new) (CommitInv-add s x i b new)
    ]
  ]

  artifact_loop-CommitInv :
      (s : ArtifactLoop) (xs : List RuntimeArtifact)
      → CommitInv s
      → CommitInv (artifact_loop path s xs)
  unfolding artifact_loop
  artifact_loop-CommitInv s [] i = i
  artifact_loop-CommitInv s (x ∷ xs) i =
      artifact_loop-CommitInv (artifact_step path s x) xs (artifact_step-CommitInv s x i)

  abbrev start : ArtifactLoop
  start = record { seen = existing; accepted = []; new_keys = [] }

  start-CommitInv : CommitInv start
  unfolding mem_text
  start-CommitInv = record {
    seen_iff = λ t. ground arith;
    fresh = tt;
    apart = tt;
    below = tt;
    covered = tt;
  }

-- The keys that a commit adds to a run's.
abbrev pub added_keys : Text → List Text → List RuntimeArtifact → List Text
added_keys path existing xs =
    (artifact_loop path (record { seen = existing; accepted = []; new_keys = [] }) xs).new_keys

-- A commit takes exactly the artifacts below the output path, in order. The keys that it adds are
-- below that path, without repeats, and none of the run's own; the run then has the key of every
-- accepted artifact; the run's keys are written only if there is a new one, behind the old ones;
-- and the count is the number of new keys.
pub plan_runtime_artifact_commit_lem :
    (path : Text) (existing : List Text) (xs : List RuntimeArtifact)
    → let c = plan_runtime_artifact_commit path existing xs in
      let new = added_keys path existing xs in
      (c.accepted_artifacts ≡ below_output path xs)
      × All (λ k. is_run_artifact_key path k ≡ true) new
      × HasNoRepeats new
      × All (λ k. mem_text k existing ≡ false) new
      × All (λ a. (mem_text a.key existing || mem_text a.key new) ≡ true) c.accepted_artifacts
      × (c.patch_keys ≡ (if ltb 0 c.accepted_count then some (existing ++ new) else none))
      × (c.accepted_count ≡ length new)
unfolding plan_runtime_artifact_commit
plan_runtime_artifact_commit_lem path existing xs =
    let i = artifact_loop-CommitInv path existing _ xs (start-CommitInv path existing) in
    (artifact_loop-accepted path _ xs, i.below, i.fresh, i.apart, i.covered, refl, refl)

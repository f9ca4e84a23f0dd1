-- ===== src/Run/Examples/Artifacts.antt =====
-- Tests of the artifacts and of the metadata of events, and the theorems at concrete values.
use tahuna_oss.Common.{
  ◌≡◌, refl, true, false, ◌||◌, none, some, List, [], ◌∷◌, length, All, if◌then◌else◌, ltb,
}
use tahuna_oss.Js.Text.{Text, lit, trim, mem_text, text_eq, starts_with}
use tahuna_oss.Js.Number.{of_ℕ}
use tahuna_oss.Js.Json.{Json, Metadata}
use tahuna_oss.Run.Types.{failed, RunEvent, run_event}
use tahuna_oss.Run.Artifacts.{
  is_run_artifact_key, RuntimeArtifact, artifact_step, plan_runtime_artifact_commit,
}
use tahuna_oss.Run.Commits.{
  below_output, HasNoRepeats, added_keys, plan_runtime_artifact_commit_lem,
}

abbrev artifact : Text → RuntimeArtifact
artifact key = record { key = key; size = of_ℕ 1; provider_creation_time = of_ℕ 2 }

abbrev uploads : List RuntimeArtifact
uploads =
    artifact (lit "out/a")
    ∷ artifact (lit "else/b")
    ∷ artifact (lit "out/a")
    ∷ artifact (lit "out/c")
    ∷ []

commit_adds : added_keys (lit "out") (lit "out/c" ∷ []) uploads ≡ lit "out/a" ∷ []
unfolding plan_runtime_artifact_commit artifact_step is_run_artifact_key mem_text text_eq
    starts_with trim lit
commit_adds = refl

plan_runtime_artifact_commit_lem_example :
    let c = plan_runtime_artifact_commit (lit "out") (lit "out/c" ∷ []) uploads in
    let new = added_keys (lit "out") (lit "out/c" ∷ []) uploads in
    (c.accepted_artifacts ≡ below_output (lit "out") uploads)
    × All (λ k. is_run_artifact_key (lit "out") k ≡ true) new
    × HasNoRepeats new
    × All (λ k. mem_text k (lit "out/c" ∷ []) ≡ false) new
    × All
        (λ a. (mem_text a.key (lit "out/c" ∷ []) || mem_text a.key new) ≡ true)
        c.accepted_artifacts
    × (c.patch_keys ≡ (if ltb 0 c.accepted_count then some (lit "out/c" ∷ new) else none))
    × (c.accepted_count ≡ length new)
plan_runtime_artifact_commit_lem_example =
    plan_runtime_artifact_commit_lem (lit "out") (lit "out/c" ∷ []) uploads

abbrev event : RunEvent
event =
    run_event failed (lit "failed")
      (some (("source", some (Json.str (lit "x"))) ∷ ("error", none) ∷ []))

abbrev settlement : Metadata
settlement = ("error", some Json.null) ∷ ("cents", some (Json.number (of_ℕ 12))) ∷ []

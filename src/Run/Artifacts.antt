-- ===== src/Run/Artifacts.antt =====
-- The artifacts of a run and the metadata of its events, at the end of
-- web/convex/core/runLifecyclePlan.ts.
use text.Mathlib.Text.{◌==◌ as str_eq}
use tahuna_oss.Common.{
  ℕ, String, Bool, false, ◌||◌, not, Option, none, some, List, [], ◌∷◌, ◌++◌, length, if◌then◌else◌,
  ltb,
}
use tahuna_oss.Js.Text.{Text, lit, trim, is_empty, starts_with, mem_text}
use tahuna_oss.Js.Number.{Number}
use tahuna_oss.Js.Json.{Json, Metadata}
use tahuna_oss.Run.Types.{RunEvent}

unfoldable pub is_run_artifact_key : Text → Text → Bool
is_run_artifact_key output_path key =
    if is_empty (trim output_path) || is_empty (trim key)
    then false
    else starts_with (trim key) (trim output_path ++ lit "/")

pub record RuntimeArtifact : Type 0 where
  pub key : Text
  pub size : Number
  pub provider_creation_time : Number

-- The variables of the loop; `new_keys` is in the order of insertion.
pub record ArtifactLoop : Type 0 where
  pub seen : List Text
  pub accepted : List RuntimeArtifact
  pub new_keys : List Text

-- One round of the loop.
unfoldable pub artifact_step : Text → ArtifactLoop → RuntimeArtifact → ArtifactLoop
artifact_step output_path s artifact =
    if not (is_run_artifact_key output_path artifact.key)
    then s
    else if mem_text artifact.key s.seen
    then record s { accepted = s.accepted ++ artifact ∷ [] }
    else record {
      seen = artifact.key ∷ s.seen;
      accepted = s.accepted ++ artifact ∷ [];
      new_keys = s.new_keys ++ artifact.key ∷ [];
    }

unfoldable pub artifact_loop : Text → ArtifactLoop → List RuntimeArtifact → ArtifactLoop
artifact_loop output_path s [] = s
artifact_loop output_path s (a ∷ more) =
    artifact_loop output_path (artifact_step output_path s a) more

pub record ArtifactCommit : Type 0 where
  pub accepted_artifacts : List RuntimeArtifact
  pub patch_keys : Option (List Text)
  pub accepted_count : ℕ

unfoldable pub plan_runtime_artifact_commit :
    Text → List Text → List RuntimeArtifact → ArtifactCommit
unfolding artifact_loop
plan_runtime_artifact_commit output_path existing artifacts =
    let s =
      artifact_loop output_path (record { seen = existing; accepted = []; new_keys = [] })
        artifacts in
    record {
      accepted_artifacts = s.accepted;
      patch_keys = if ltb 0 (length s.new_keys) then some (existing ++ s.new_keys) else none;
      accepted_count = length s.new_keys;
    }

-- The object without the fields that are `undefined`.
unfoldable pub compact_metadata : Metadata → Metadata
compact_metadata [] = []
compact_metadata ((k, none) ∷ m) = compact_metadata m
compact_metadata ((k, some v) ∷ m) = (k, some v) ∷ compact_metadata m

-- `object[key] = value`: a new key goes to the end, and a known one keeps its place.
unfoldable pub assign : String → Option Json → Metadata → Metadata
assign k v [] = (k, v) ∷ []
assign k v ((j, w) ∷ m) = if str_eq j k then (j, v) ∷ m else (j, w) ∷ assign k v m

-- `{ ...base, ...over }`
unfoldable pub spread : Metadata → Metadata → Metadata
unfolding assign
spread base [] = base
spread base ((k, v) ∷ over) = spread (assign k v base) over

abbrev pub metadata_or_empty : Option Metadata → Metadata
metadata_or_empty none = []
metadata_or_empty (some m) = m

abbrev pub compact_option : Option Metadata → Option Metadata
compact_option none = none
compact_option (some m) = some (compact_metadata m)

unfoldable pub merge_run_event_metadata : RunEvent → Option Metadata → Option Metadata
unfolding spread compact_metadata
merge_run_event_metadata event none = compact_option event.metadata
merge_run_event_metadata event (some m) =
    some (compact_metadata (spread (metadata_or_empty event.metadata) m))

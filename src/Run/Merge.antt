-- ===== src/Run/Merge.antt =====
-- The metadata of an event and those of a settlement, `mergeRunEventMetadata` of
-- web/convex/core/runLifecyclePlan.ts.
use text.Mathlib.Text.{◌==◌ as str_eq}
use text.Mathlib.TextEquality.{eq_iff}
use tahuna_oss.Common.{
  ◌≡◌, refl, ◌∙◌, String, Bool, true, false, Option, none, some, [], ◌∷◌, arith, is_some,
  if◌then◌else◌, All,
}
use tahuna_oss.Js.Json.{Json, Metadata}
use tahuna_oss.Run.Types.{RunEvent}
use tahuna_oss.Run.Artifacts.{
  compact_metadata, assign, spread, metadata_or_empty, merge_run_event_metadata,
}

-- The value of a field; a field that is absent and one that is `undefined` read the same.
abbrev pub field_of : String → Metadata → Option Json
field_of k [] = none
field_of k ((j, v) ∷ m) = if str_eq j k then v else field_of k m

abbrev pub has_field : String → Metadata → Bool
has_field k [] = false
has_field k ((j, v) ∷ m) = if str_eq j k then true else has_field k m

-- The fields of an object have different names.
abbrev pub HasDistinctFields : Metadata → Type 0
HasDistinctFields [] = Unit
HasDistinctFields ((k, v) ∷ m) = (has_field k m ≡ false) × HasDistinctFields m

field_of-assign :
    (k j : String) (v : Option Json) (m : Metadata)
    → field_of j (assign k v m) ≡ (if str_eq k j then v else field_of j m)
unfolding assign
field_of-assign k j v [] = refl
field_of-assign k j v ((i, w) ∷ m) =
    ground (arith, eq_iff k j, eq_iff i k, eq_iff i j, field_of-assign k j v m)

has_field-assign :
    (k j : String) (v : Option Json) (m : Metadata)
    → has_field j (assign k v m) ≡ (if str_eq k j then true else has_field j m)
unfolding assign
has_field-assign k j v [] = refl
has_field-assign k j v ((i, w) ∷ m) =
    ground (arith, eq_iff k j, eq_iff i k, eq_iff i j, has_field-assign k j v m)

assign-HasDistinctFields :
    (k : String) (v : Option Json) (m : Metadata)
    → HasDistinctFields m
    → HasDistinctFields (assign k v m)
unfolding assign
assign-HasDistinctFields k v [] h = (refl, tt)
assign-HasDistinctFields k v ((i, w) ∷ m) h =
    ground
      (arith, eq_iff k i, eq_iff i k, has_field-assign k i v m, assign-HasDistinctFields k v m h.1)

spread-HasDistinctFields :
    (base over : Metadata) → HasDistinctFields base → HasDistinctFields (spread base over)
unfolding spread
spread-HasDistinctFields base [] h = h
spread-HasDistinctFields base ((k, v) ∷ over) h =
    spread-HasDistinctFields (assign k v base) over (assign-HasDistinctFields k v base h)

field_of-spread :
    (j : String) (base over : Metadata)
    → HasDistinctFields over
    → field_of j (spread base over)
      ≡ (if has_field j over then field_of j over else field_of j base)
unfolding spread
field_of-spread j base [] h = refl
field_of-spread j base ((k, v) ∷ over) h =
    field_of-spread j (assign k v base) over h.1
    ∙ ground (arith, field_of-assign k j v base, eq_iff k j, h.0)

field_of_absent : (k : String) (m : Metadata) → has_field k m ≡ false → field_of k m ≡ none
field_of_absent k [] h = refl
field_of_absent k ((j, v) ∷ m) h = ground (arith, field_of_absent k m)

field_of-compact :
    (j : String) (m : Metadata)
    → HasDistinctFields m
    → field_of j (compact_metadata m) ≡ field_of j m
unfolding compact_metadata
field_of-compact j [] h = refl
field_of-compact j ((k, none) ∷ m) h =
    ground (arith, field_of-compact j m h.1, field_of_absent k m h.0, eq_iff k j)
field_of-compact j ((k, some v) ∷ m) h = ground (arith, field_of-compact j m h.1)

compact_defined : (m : Metadata) → All (λ f. is_some f.1 ≡ true) (compact_metadata m)
unfolding compact_metadata
compact_defined [] = tt
compact_defined ((k, none) ∷ m) = compact_defined m
compact_defined ((k, some v) ∷ m) = (refl, compact_defined m)

-- With a settlement, the metadata of an event are those of the settlement over the event's own, for
-- objects with different field names, and no field of the result is `undefined`.
pub merge_run_event_metadata_lem :
    (event : RunEvent) (m : Metadata)
    → HasDistinctFields (metadata_or_empty event.metadata)
    → HasDistinctFields m
    → (r : Metadata) × (merge_run_event_metadata event (some m) ≡ some r)
      × All (λ f. is_some f.1 ≡ true) r
      × ((j : String)
          → field_of j r ≡ (
              if has_field j m
              then field_of j m
              else field_of j (metadata_or_empty event.metadata)))
unfolding merge_run_event_metadata
merge_run_event_metadata_lem event m h k =
    let base = metadata_or_empty event.metadata in
    (
      compact_metadata (spread base m),
      refl,
      compact_defined (spread base m),
      λ j.
          field_of-compact j (spread base m) (spread-HasDistinctFields base m h)
          ∙ field_of-spread j base m k,
    )

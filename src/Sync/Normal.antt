-- ===== src/Sync/Normal.antt =====
-- What the manifests that `parseManifest` of web/convex/syncManifest.ts accepts look like, in terms of
-- their texts and numbers.
use tahuna_oss.Common.{
  ℕ, suc, ◌*◌, ◌≤◌, ◌<◌, ◌≡◌, ◌≢◌, refl, ◌⊎◌, inl, inr, true, false, ◌&&◌, Option, none, some, List,
  [], ◌∷◌, ◌++◌, length, ltb, ◌==◌, arith, All, Bool-cases,
}
use mathlib.Core.Path.{subst}
use tahuna_oss.Js.Text.{Text, lit, trim, text_eq, starts_with}
use tahuna_oss.Js.Number.{Number, finite, is_finite}
use tahuna_oss.Js.Json.{Json}
use tahuna_oss.Sync.Manifest.{
  SyncKind, ManifestEntry, SyncManifestPayload, includes, text_ltb, all_hex, is_sha256_hex,
  is_valid_path, exceeds, follows, parse_manifest,
}
use tahuna_oss.Sync.Parsing.{IsEntry, AreEntries, parse_manifest-IsManifest}

infix 40 ◌≼◌
-- The order of texts, unit by unit: a text comes before its extensions, and the first unit in which
-- two texts differ decides.
pub data ◌≼◌ : Text → Text → Type 0 where
  shorter : {t : Text} → [] ≼ t
  smaller : {c d : ℕ} {s t : Text} → c < d → (c ∷ s) ≼ (d ∷ t)
  equal : {c : ℕ} {s t : Text} → s ≼ t → (c ∷ s) ≼ (c ∷ t)

-- A path that stays below the directory of the files: relative, without backslashes and zeros, and
-- without a step to the parent, but at its end.
pub record IsBelow (path : Text) : Type 0 where
  pub some_text : path ≢ []
  pub relative : (rest : Text) → path ≢ 47 ∷ rest
  pub plain : All (λ c. (c ≢ 92) × (c ≢ 0)) path
  pub not_here : path ≢ 46 ∷ []
  pub not_parent : path ≢ 46 ∷ 46 ∷ []
  pub parent_start : (rest : Text) → path ≢ 46 ∷ 46 ∷ 47 ∷ rest
  pub parent_inside : (before after : Text) → path ≢ before ++ 47 ∷ 46 ∷ 46 ∷ 47 ∷ after

-- A digit or one of the letters a to f.
abbrev pub IsHexDigit : ℕ → Type 0
IsHexDigit c = ((48 ≤ c) × (c ≤ 57)) ⊎ ((97 ≤ c) × (c ≤ 102))

-- A size within a limit; NaN limits nothing.
abbrev pub IsWithin : ℕ → Option Number → Type 0
IsWithin size none = Unit
IsWithin size (some (finite n d)) = size * suc d ≤ n
IsWithin size (some (Number.negative n d)) = ⊥
IsWithin size (some Number.neg_infinite) = ⊥
IsWithin size (some Number.infinite) = Unit
IsWithin size (some Number.nan) = Unit

pub record IsNormalEntry (limit : Option Number) (e : ManifestEntry) : Type 0 where
  pub trimmed : trim e.path ≡ e.path
  pub below : IsBelow e.path
  pub hash_length : length e.sha256 ≡ 64
  pub hash_digits : All IsHexDigit e.sha256
  pub permissions : e.mode ≤ 511
  pub size_limit : IsWithin e.size limit

-- The paths are in order, after a path that comes before them all.
abbrev pub AreSorted : Text → List ManifestEntry → Type 0
AreSorted previous [] = Unit
AreSorted previous (e ∷ es) = (previous ≼ e.path) × AreSorted e.path es

pub record IsNormal (kind : SyncKind) (limit : Option Number) (m : SyncManifestPayload)
    : Type 0 where
  pub version_one : m.version ≡ 1
  pub same_kind : m.kind ≡ kind
  pub finite_time : is_finite m.created_at ≡ true
  pub entries_normal : All (IsNormalEntry limit) m.entries
  pub paths_sorted : AreSorted [] m.entries

text_ltb-≼ : (s t : Text) → text_ltb t s ≡ false → s ≼ t
unfolding text_ltb
text_ltb-≼ [] t h = shorter
text_ltb-≼ (c ∷ s) [] h = cc
text_ltb-≼ (c ∷ s) (d ∷ t) h = elim (Bool-cases (ltb c d)) [
  | inl l ↦ smaller (ground arith)
  | inr g ↦
      let same : c ≡ d = ground arith in
      let later : text_ltb t s ≡ false = ground arith in
      subst (λ x. (c ∷ s) ≼ (x ∷ t)) same (equal (text_ltb-≼ s t later))
]

parent_inside_included :
    (before after : Text) → includes (before ++ 47 ∷ 46 ∷ 46 ∷ 47 ∷ after) (lit "/../") ≡ true
unfolding includes starts_with lit
parent_inside_included [] after = refl
parent_inside_included (c ∷ before) after = rw (parent_inside_included before after) (ground arith)

excludes_unit : (s : Text) (d : ℕ) → includes s (d ∷ []) ≡ false → All (λ c. c ≢ d) s
unfolding includes starts_with
excludes_unit [] d h = tt
excludes_unit (c ∷ s) d h = (ground arith, excludes_unit s d (ground arith))

plain_units :
    (s : Text) → All (λ c. c ≢ 92) s → All (λ c. c ≢ 0) s → All (λ c. (c ≢ 92) × (c ≢ 0)) s
plain_units [] p q = tt
plain_units (c ∷ s) p q = ((p.0, q.0), plain_units s p.1 q.1)

refused : (path p : Text) → is_valid_path path ≡ true → is_valid_path p ≡ false → path ≢ p
refused path p h k e = cc (h, k, e)

is_valid_path-IsBelow : (path : Text) → is_valid_path path ≡ true → IsBelow path
unfolding is_valid_path starts_with text_eq lit
is_valid_path-IsBelow path h = record {
  some_text = refused path [] h refl;
  relative = λ rest. refused path (47 ∷ rest) h refl;
  plain =
      plain_units path (excludes_unit path 92 (ground arith)) (excludes_unit path 0 (ground arith));
  not_here = refused path (46 ∷ []) h (ground arith);
  not_parent = refused path (46 ∷ 46 ∷ []) h (ground arith);
  parent_start = λ rest. refused path (46 ∷ 46 ∷ 47 ∷ rest) h (ground arith);
  parent_inside = λ before after.
      refused path (before ++ 47 ∷ 46 ∷ 46 ∷ 47 ∷ after) h
        (let found = parent_inside_included before after in ground (arith, found));
}

all_hex-digits : (s : Text) → all_hex s ≡ true → All IsHexDigit s
unfolding all_hex
all_hex-digits [] h = tt
all_hex-digits (c ∷ s) h = (ground arith, all_hex-digits s (ground arith))

exceeds-IsWithin :
    (size : ℕ) (limit : Option Number) → exceeds size limit ≡ false → IsWithin size limit
exceeds-IsWithin size none h = tt
exceeds-IsWithin size (some Number.nan) h = tt
exceeds-IsWithin size (some Number.infinite) h = tt
exceeds-IsWithin size (some Number.neg_infinite) h = cc
exceeds-IsWithin size (some (finite n d)) h = ground arith
exceeds-IsWithin size (some (Number.negative n d)) h = cc

follows-≼ :
    (limit : Option Number) (previous : Text) (e : ManifestEntry)
    → follows limit previous e ≡ true
    → previous ≼ e.path
follows-≼ limit [] e h = shorter
follows-≼ limit (c ∷ s) e h = text_ltb-≼ (c ∷ s) e.path (ground arith)

entry_normal :
    (limit : Option Number) (previous : Text) (e : ManifestEntry)
    → IsEntry e
    → follows limit previous e ≡ true
    → IsNormalEntry limit e
unfolding is_sha256_hex
entry_normal limit previous e i h =
    let hex : (length e.sha256 == 64 && all_hex e.sha256) ≡ true = i.hash in
    let valid = i.valid_path in
    let mode = i.permissions in
    record {
      trimmed = i.trimmed;
      below = is_valid_path-IsBelow e.path valid;
      hash_length = ground arith;
      hash_digits = all_hex-digits e.sha256 (ground arith);
      permissions = ground arith;
      size_limit = exceeds-IsWithin e.size limit (ground arith);
    }

entries_of :
    (limit : Option Number) (previous : Text) (es : List ManifestEntry)
    → AreEntries limit previous es
    → All (IsNormalEntry limit) es × AreSorted previous es
entries_of limit previous [] h = (tt, tt)
entries_of limit previous (e ∷ es) h =
    let rest = entries_of limit e.path es h.2 in
    ((entry_normal limit previous e h.0 h.1, rest.0), (follows-≼ limit previous e h.1, rest.1))

-- Every manifest that the parser returns is of the asked kind and in normal form: each path is
-- trimmed and stays below the directory of the files, but for a parent step at its end; each hash
-- has 64 lower-case hexadecimal digits, each mode is at most 0o777, each size is within the limit;
-- and the paths are in the order of their code units.
pub parse_manifest-IsNormal :
    (value : Json) (kind : SyncKind) (limit : Option Number) (m : SyncManifestPayload)
    → parse_manifest value kind limit ≡ some m
    → IsNormal kind limit m
parse_manifest-IsNormal value kind limit m h =
    let i = parse_manifest-IsManifest value kind limit m h in
    let es = entries_of limit [] m.entries i.in_order in
    record {
      version_one = i.version_one;
      same_kind = i.same_kind;
      finite_time = i.finite_time;
      entries_normal = es.0;
      paths_sorted = es.1;
    }

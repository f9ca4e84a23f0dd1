-- ===== src/Sync/Examples.antt =====
-- Tests of the parser of manifests, and its theorems at a concrete manifest.
use tahuna_oss.Common.{◌≡◌, refl, true, Option, some, [], ◌∷◌}
use tahuna_oss.Js.Text.{Text, lit, trim, trim_start, trim_end, is_space, text_eq, starts_with}
use tahuna_oss.Js.Number.{Number, of_ℕ}
use tahuna_oss.Sync.Manifest.{
  code, ManifestEntry, SyncManifestPayload, includes, text_ltb, all_hex, is_sha256_hex,
  is_valid_path, parse_manifest,
}
use tahuna_oss.Sync.Parsing.{IsManifest, manifest_value, parse_manifest-manifest_value}
use tahuna_oss.Sync.Normal.{IsNormal, parse_manifest-IsNormal}

abbrev hash : Text
hash = lit "0123456789abcdef0123456789abcdef0123456789abcdef0123456789abcdef"

abbrev file : Text → ManifestEntry
file path = record { path = path; sha256 = hash; size = 12; mode = 420 }

abbrev tree : SyncManifestPayload
tree = record {
  version = 1;
  kind = code;
  created_at = of_ℕ 77;
  entries = file (lit "a/main.py") ∷ file (lit "b.txt") ∷ [];
}

abbrev limit : Option Number
limit = some (of_ℕ 100)

tree-IsManifest : IsManifest code limit tree
unfolding trim trim_start trim_end is_space lit text_eq starts_with includes text_ltb is_valid_path
    is_sha256_hex all_hex
tree-IsManifest = record {
  version_one = refl;
  same_kind = refl;
  finite_time = refl;
  in_order = (
    record { trimmed = refl; valid_path = refl; hash = refl; permissions = refl },
    refl,
    (record { trimmed = refl; valid_path = refl; hash = refl; permissions = refl }, refl, tt),
  );
}

parse_manifest-manifest_value_example : parse_manifest (manifest_value tree) code limit ≡ some tree
parse_manifest-manifest_value_example =
    parse_manifest-manifest_value code limit tree tree-IsManifest

parse_manifest-IsNormal_example : IsNormal code limit tree
parse_manifest-IsNormal_example =
    parse_manifest-IsNormal (manifest_value tree) code limit tree
      (parse_manifest-manifest_value code limit tree tree-IsManifest)

-- The test of the paths does not see `..` at the end of a path.
dots_at_end : is_valid_path (lit "a/..") ≡ true
unfolding is_valid_path lit text_eq starts_with includes
dots_at_end = refl

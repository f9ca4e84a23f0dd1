-- ===== src/Sync/Manifest.antt =====
-- The parser of a manifest, web/convex/syncManifest.ts. A value of type `unknown` is a JSON value. A
-- hash is only lowered where it is ASCII: no other character becomes a hexadecimal digit.
use tahuna_oss.Common.{
  ℕ, suc, ◌+◌, ◌*◌, ◌/◌, ◌%◌, Bool, true, false, not, ◌&&◌, ◌||◌, Option, none, some, List, [], ◌∷◌,
  ltb, leb, ◌==◌, if◌then◌else◌, length,
}
use tahuna_oss.Js.Text.{Text, lit, trim, is_empty, text_eq, starts_with}
use tahuna_oss.Js.Number.{Number, finite, is_finite}
use tahuna_oss.Js.Json.{Json, Items, nil, cons, Fields, end, field}

pub data SyncKind : Type 0 where
  code data_files : SyncKind

unfoldable pub sync_kind_text : SyncKind → Text
sync_kind_text code = lit "code"
sync_kind_text data_files = lit "data"

pub record ManifestEntry : Type 0 where
  pub path : Text
  pub sha256 : Text
  pub size : ℕ
  pub mode : ℕ

pub record SyncManifestPayload : Type 0 where
  pub version : ℕ
  pub kind : SyncKind
  pub created_at : Number
  pub entries : List ManifestEntry

-- A field of an object; `none` stands for `undefined`.
unfoldable pub get_field : Text → Fields → Option Json
get_field key end = none
get_field key (field name value fields) =
    let rest = get_field key fields in if text_eq key (lit name) then some value else rest

-- The fields of a value whose `typeof` is "object"; an array has no field that the parser reads.
abbrev pub fields_of : Json → Option Fields
fields_of (Json.object fields) = some fields
fields_of (Json.array items) = some end
fields_of _ = none

-- `includes`
unfoldable pub includes : Text → Text → Bool
includes [] pattern = starts_with [] pattern
includes (c ∷ s) pattern = starts_with (c ∷ s) pattern || includes s pattern

-- `<` on strings: by code units.
unfoldable pub text_ltb : Text → Text → Bool
text_ltb [] [] = false
text_ltb [] (d ∷ t) = true
text_ltb (c ∷ s) [] = false
text_ltb (c ∷ s) (d ∷ t) = ltb c d || c == d && text_ltb s t

abbrev pub lower_ascii : ℕ → ℕ
lower_ascii c = if leb 65 c && leb c 90 then c + 32 else c

unfoldable pub to_lower_case : Text → Text
to_lower_case [] = []
to_lower_case (c ∷ s) = lower_ascii c ∷ to_lower_case s

abbrev pub is_hex : ℕ → Bool
is_hex c = leb 48 c && leb c 57 || leb 97 c && leb c 102

unfoldable pub all_hex : Text → Bool
all_hex [] = true
all_hex (c ∷ s) = is_hex c && all_hex s

-- `SHA256_HEX_RE.test`, on a lowered string.
unfoldable pub is_sha256_hex : Text → Bool
is_sha256_hex hash = length hash == 64 && all_hex hash

abbrev pub checked_hash : Text → Option Text
checked_hash hash = if is_sha256_hex hash then some hash else none

unfoldable pub normalize_sha256 : Option Json → Option Text
normalize_sha256 (some (Json.str value)) = checked_hash (to_lower_case (trim value))
normalize_sha256 _ = none

-- `typeof value === "string" ? value.trim() : ""`
abbrev pub trimmed_text : Option Json → Text
trimmed_text (some (Json.str value)) = trim value
trimmed_text _ = []

-- A value that is a whole number and not negative.
abbrev pub whole_number : Option Json → Option ℕ
whole_number (some (Json.number (finite n d))) = if n % suc d == 0 then some (n / suc d) else none
whole_number _ = none

unfoldable pub is_valid_path : Text → Bool
is_valid_path path =
    not (is_empty path)
    && not (starts_with path (lit "/"))
    && not (includes path (92 ∷ []))
    && not (includes path (0 ∷ []))
    && not (text_eq path (lit "."))
    && not (text_eq path (lit ".."))
    && not (includes path (lit "/../"))
    && not (starts_with path (lit "../"))

unfoldable pub entry_of_parts : Text → Option Text → Option ℕ → Option ℕ → Option ManifestEntry
entry_of_parts path (some sha256) (some size) (some mode) =
    if is_valid_path path && leb mode 511
    then some (record { path = path; sha256 = sha256; size = size; mode = mode })
    else none
entry_of_parts path _ _ _ = none

abbrev pub entry_of_fields : Option Fields → Option ManifestEntry
entry_of_fields none = none
entry_of_fields (some row) =
    entry_of_parts (trimmed_text (get_field (lit "path") row))
      (normalize_sha256 (get_field (lit "sha256") row)) (whole_number (get_field (lit "size") row))
      (whole_number (get_field (lit "mode") row))

unfoldable pub parse_manifest_entry : Json → Option ManifestEntry
parse_manifest_entry value = entry_of_fields (fields_of value)

-- `parsed.size > options.maxEntrySizeBytes`
abbrev pub exceeds : ℕ → Option Number → Bool
exceeds size none = false
exceeds size (some (finite n d)) = ltb n (size * suc d)
exceeds size (some (Number.negative n d)) = true
exceeds size (some Number.neg_infinite) = true
exceeds size (some _) = false

-- The entry may follow an entry with this path, the empty one before the first.
abbrev pub follows : Option Number → Text → ManifestEntry → Bool
follows limit previous entry =
    (is_empty previous || not (text_ltb entry.path previous)) && not (exceeds entry.size limit)

abbrev pub prepend : ManifestEntry → Option (List ManifestEntry) → Option (List ManifestEntry)
prepend entry none = none
prepend entry (some entries) = some (entry ∷ entries)

-- What follows the parsing of an entry: `rest` parses the entries after a path.
unfoldable pub then_entries :
    Option Number
    → Text
    → Option ManifestEntry
    → (Text → Option (List ManifestEntry))
    → Option (List ManifestEntry)
then_entries limit previous none rest = none
then_entries limit previous (some entry) rest =
    if follows limit previous entry then prepend entry (rest entry.path) else none

unfoldable pub parse_entries : Option Number → Text → Items → Option (List ManifestEntry)
parse_entries limit previous nil = some []
parse_entries limit previous (cons value values) =
    then_entries limit previous (parse_manifest_entry value) λ path. parse_entries limit path values

abbrev pub is_version_one : Option Json → Bool
is_version_one (some (Json.number (finite n d))) = n == suc d
is_version_one _ = false

abbrev pub is_kind : SyncKind → Option Json → Bool
is_kind kind (some (Json.str value)) = text_eq value (sync_kind_text kind)
is_kind kind _ = false

abbrev pub with_entries :
    SyncKind → Number → Option (List ManifestEntry) → Option SyncManifestPayload
with_entries kind created_at none = none
with_entries kind created_at (some entries) =
    some (record { version = 1; kind = kind; created_at = created_at; entries = entries })

unfoldable pub payload_of_parts :
    SyncKind → Option Number → Bool → Option Json → Option Json → Option SyncManifestPayload
payload_of_parts kind limit true (some (Json.number created_at)) (some (Json.array items)) =
    if is_finite created_at
    then with_entries kind created_at (parse_entries limit [] items)
    else none
payload_of_parts kind limit _ _ _ = none

abbrev pub payload_of_fields : SyncKind → Option Number → Option Fields → Option SyncManifestPayload
payload_of_fields kind limit none = none
payload_of_fields kind limit (some row) =
    payload_of_parts kind limit
      (is_version_one (get_field (lit "version") row) && is_kind kind (get_field (lit "type") row))
      (get_field (lit "created_at") row) (get_field (lit "entries") row)

-- `limit` is `options?.maxEntrySizeBytes`.
unfoldable pub parse_manifest : Json → SyncKind → Option Number → Option SyncManifestPayload
parse_manifest value kind limit = payload_of_fields kind limit (fields_of value)

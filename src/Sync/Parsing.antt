-- ===== src/Sync/Parsing.antt =====
-- The manifests that the parser accepts, and what it makes of their values: `parseManifest` of
-- web/convex/syncManifest.ts.
use tahuna_oss.Common.{
  ℕ, ◌/◌, ◌%◌, ◌≡◌, refl, sym, inl, inr, Bool, true, false, ◌&&◌, Option, none, some, List, [], ◌∷◌,
  leb, ◌==◌, arith, All, Bool-cases, Option-cases, if◌then◌else◌,
}
use tahuna_oss.Js.Text.{Text, lit, trim, trim_start, trim_end, is_space, text_eq}
use tahuna_oss.Js.TextLaws.{trim_idem, trim_of_no_space, text_eq_refl}
use tahuna_oss.Js.Number.{Number, of_ℕ, is_finite}
use tahuna_oss.Js.Json.{Json, Items, nil, cons, Fields, end, field}
use tahuna_oss.Sync.Manifest.{
  SyncKind, sync_kind_text, ManifestEntry, SyncManifestPayload, get_field, to_lower_case,
  lower_ascii, is_hex, all_hex, is_sha256_hex, checked_hash, normalize_sha256, trimmed_text,
  whole_number, is_valid_path, entry_of_parts, entry_of_fields, fields_of, parse_manifest_entry,
  follows, then_entries, parse_entries, with_entries, payload_of_parts, parse_manifest,
}

-- An entry in the form that the parser gives it.
pub record IsEntry (e : ManifestEntry) : Type 0 where
  pub trimmed : trim e.path ≡ e.path
  pub valid_path : is_valid_path e.path ≡ true
  pub hash : is_sha256_hex e.sha256 ≡ true
  pub permissions : leb e.mode 511 ≡ true

-- Entries in the order of their paths, none above the limit, after an entry with this path.
abbrev pub AreEntries : Option Number → Text → List ManifestEntry → Type 0
AreEntries limit previous [] = Unit
AreEntries limit previous (e ∷ es) =
    IsEntry e × (follows limit previous e ≡ true) × AreEntries limit e.path es

pub record IsManifest (kind : SyncKind) (limit : Option Number) (m : SyncManifestPayload)
    : Type 0 where
  pub version_one : m.version ≡ 1
  pub same_kind : m.kind ≡ kind
  pub finite_time : is_finite m.created_at ≡ true
  pub in_order : AreEntries limit [] m.entries

-- The value that a client sends for a manifest.
abbrev pub entry_value : ManifestEntry → Json
entry_value e = Json.object (
    field "path" (Json.str e.path) (
      field "sha256" (Json.str e.sha256)
        (field "size" (Json.number (of_ℕ e.size)) (field "mode" (Json.number (of_ℕ e.mode)) end))))

abbrev pub entry_values : List ManifestEntry → Items
entry_values [] = nil
entry_values (e ∷ es) = cons (entry_value e) (entry_values es)

abbrev pub manifest_value : SyncManifestPayload → Json
manifest_value m = Json.object (
    field "version" (Json.number (of_ℕ m.version)) (
      field "type" (Json.str (sync_kind_text m.kind)) (
        field "created_at" (Json.number m.created_at)
          (field "entries" (Json.array (entry_values m.entries)) end))))

hex_not_space : (c : ℕ) → is_hex c ≡ true → is_space c ≡ false
unfolding is_space
hex_not_space c h = ground arith

hex_lower : (c : ℕ) → is_hex c ≡ true → lower_ascii c ≡ c
hex_lower c h = ground arith

all_hex-All : (s : Text) → all_hex s ≡ true → All (λ c. is_hex c ≡ true) s
unfolding all_hex
all_hex-All [] h = tt
all_hex-All (c ∷ s) h = elim (Bool-cases (is_hex c)) [
  | inl a ↦ (a, all_hex-All s (rw a at h))
  | inr a ↦ cc (rw a at h)
]

All-hex_not_space : (s : Text) → All (λ c. is_hex c ≡ true) s → All (λ c. is_space c ≡ false) s
All-hex_not_space [] h = tt
All-hex_not_space (c ∷ s) h = (hex_not_space c h.0, All-hex_not_space s h.1)

All-hex_lower : (s : Text) → All (λ c. is_hex c ≡ true) s → to_lower_case s ≡ s
unfolding to_lower_case
All-hex_lower [] h = refl
All-hex_lower (c ∷ s) h = rw (hex_lower c h.0, All-hex_lower s h.1) refl

hash_hex : (hash : Text) → is_sha256_hex hash ≡ true → all_hex hash ≡ true
unfolding is_sha256_hex
hash_hex hash h = ground arith

normalize_sha256_of_hash :
    (hash : Text) → is_sha256_hex hash ≡ true → normalize_sha256 (some (Json.str hash)) ≡ some hash
unfolding normalize_sha256
normalize_sha256_of_hash hash h =
    let hex = all_hex-All hash (hash_hex hash h) in
    rw (trim_of_no_space hash (All-hex_not_space hash hex), All-hex_lower hash hex, h) refl

whole_number-of_ℕ : (n : ℕ) → whole_number (some (Json.number (of_ℕ n))) ≡ some n
whole_number-of_ℕ n =
    let rest : (n % 1 == 0) ≡ true = ground arith in
    let same : n / 1 ≡ n = omega arith in rw (rest, same) refl

parse_manifest_entry-entry_value :
    (e : ManifestEntry) → IsEntry e → parse_manifest_entry (entry_value e) ≡ some e
unfolding parse_manifest_entry get_field lit text_eq entry_of_parts
parse_manifest_entry-entry_value e i =
    rw
      (
        normalize_sha256_of_hash e.sha256 i.hash,
        whole_number-of_ℕ e.size,
        whole_number-of_ℕ e.mode,
        i.trimmed,
        i.valid_path,
        i.permissions,
      )
      refl

parse_entries-entry_values :
    (limit : Option Number) (previous : Text) (es : List ManifestEntry)
    → AreEntries limit previous es
    → parse_entries limit previous (entry_values es) ≡ some es
unfolding parse_entries then_entries
parse_entries-entry_values limit previous [] h = refl
parse_entries-entry_values limit previous (e ∷ es) h =
    rw (parse_manifest_entry-entry_value e h.0, h.1, parse_entries-entry_values limit e.path es h.2)
      refl

-- The parser reads back every manifest in its normal form, from the value that stands for it.
pub parse_manifest-manifest_value :
    (kind : SyncKind) (limit : Option Number) (m : SyncManifestPayload)
    → IsManifest kind limit m
    → parse_manifest (manifest_value m) kind limit ≡ some m
unfolding parse_manifest get_field lit text_eq payload_of_parts
parse_manifest-manifest_value kind limit m i =
    rw
      (
        i.version_one,
        i.same_kind,
        text_eq_refl (sync_kind_text kind),
        i.finite_time,
        parse_entries-entry_values limit [] m.entries i.in_order,
      )
      refl

checked_hash-is_hash :
    (value hash : Text) → checked_hash value ≡ some hash → is_sha256_hex hash ≡ true
checked_hash-is_hash value hash h = elim (Bool-cases (is_sha256_hex value)) [
  | inl a ↦ let same : value ≡ hash = cc (rw a at h) in rw (sym same) a
  | inr a ↦ cc (rw a at h)
]

normalize_sha256-is_hash :
    (v : Option Json) (hash : Text) → normalize_sha256 v ≡ some hash → is_sha256_hex hash ≡ true
unfolding normalize_sha256
normalize_sha256-is_hash (some (Json.str value)) hash h = checked_hash-is_hash _ hash h
normalize_sha256-is_hash none hash h = cc
normalize_sha256-is_hash (some Json.null) hash h = cc
normalize_sha256-is_hash (some (Json.bool b)) hash h = cc
normalize_sha256-is_hash (some (Json.number n)) hash h = cc
normalize_sha256-is_hash (some (Json.array items)) hash h = cc
normalize_sha256-is_hash (some (Json.object fields)) hash h = cc

entry_of_parts-IsEntry :
    (path : Text) (sha256 : Option Text) (size mode : Option ℕ) (e : ManifestEntry)
    → trim path ≡ path
    → ((hash : Text) → sha256 ≡ some hash → is_sha256_hex hash ≡ true)
    → entry_of_parts path sha256 size mode ≡ some e
    → IsEntry e
unfolding entry_of_parts
entry_of_parts-IsEntry path none size mode e t k h = cc
entry_of_parts-IsEntry path (some hash) none mode e t k h = cc
entry_of_parts-IsEntry path (some hash) (some size) none e t k h = cc
entry_of_parts-IsEntry path (some hash) (some size) (some mode) e t k h =
    elim (Bool-cases (is_valid_path path && leb mode 511)) [
      | inr bad ↦ cc (rw bad at h)
      | inl good ↦
          let made : ManifestEntry = record {
            path = path;
            sha256 = hash;
            size = size;
            mode = mode;
          } in
          let same : made ≡ e = cc (rw good at h) in
          rw (sym same) (record {
            trimmed = t;
            valid_path = ground arith;
            hash = k hash refl;
            permissions = ground arith;
          })
    ]

trimmed_text_idem : (v : Option Json) → trim (trimmed_text v) ≡ trimmed_text v
unfolding trim trim_start trim_end
trimmed_text_idem (some (Json.str value)) = trim_idem value
trimmed_text_idem none = refl
trimmed_text_idem (some Json.null) = refl
trimmed_text_idem (some (Json.bool b)) = refl
trimmed_text_idem (some (Json.number n)) = refl
trimmed_text_idem (some (Json.array items)) = refl
trimmed_text_idem (some (Json.object fields)) = refl

entry_of_fields-IsEntry :
    (o : Option Fields) (e : ManifestEntry) → entry_of_fields o ≡ some e → IsEntry e
entry_of_fields-IsEntry none e h = cc
entry_of_fields-IsEntry (some row) e h =
    entry_of_parts-IsEntry (trimmed_text (get_field (lit "path") row)) _ _ _ e
      (trimmed_text_idem (get_field (lit "path") row))
      (normalize_sha256-is_hash (get_field (lit "sha256") row)) h

parse_manifest_entry-IsEntry :
    (value : Json) (e : ManifestEntry) → parse_manifest_entry value ≡ some e → IsEntry e
unfolding parse_manifest_entry
parse_manifest_entry-IsEntry value e h = entry_of_fields-IsEntry (fields_of value) e h

parse_entries-AreEntries :
    (limit : Option Number) (previous : Text) (items : Items) (es : List ManifestEntry)
    → parse_entries limit previous items ≡ some es
    → AreEntries limit previous es
unfolding parse_entries then_entries
parse_entries-AreEntries limit previous nil es h = let same : [] ≡ es = cc in rw (sym same) tt
parse_entries-AreEntries limit previous (cons value values) es h =
    elim (Option-cases (parse_manifest_entry value)) [
      | inl refused ↦ cc (rw refused at h)
      | inr (e, read) ↦ elim (Bool-cases (follows limit previous e)) [
        | inr late ↦ cc (rw (read, late) at h)
        | inl order ↦ elim (Option-cases (parse_entries limit e.path values)) [
          | inl refused ↦ cc (rw (read, order, refused) at h)
          | inr (rest, more) ↦
              let same : e ∷ rest ≡ es = cc (rw (read, order, more) at h) in
              rw (sym same) (
                parse_manifest_entry-IsEntry value e read,
                order,
                parse_entries-AreEntries limit e.path values rest more,
              )
        ]
      ]
    ]

with_entries-IsManifest :
    (kind : SyncKind) (limit : Option Number) (created_at : Number) (items : Items)
    (m : SyncManifestPayload)
    → is_finite created_at ≡ true
    → with_entries kind created_at (parse_entries limit [] items) ≡ some m
    → IsManifest kind limit m
with_entries-IsManifest kind limit created_at items m f h =
    elim (Option-cases (parse_entries limit [] items)) [
      | inl refused ↦ cc (rw refused at h)
      | inr (es, read) ↦
          let made : SyncManifestPayload = record {
            version = 1;
            kind = kind;
            created_at = created_at;
            entries = es;
          } in
          let same : made ≡ m = cc (rw read at h) in
          rw (sym same) (record {
            version_one = refl;
            same_kind = refl;
            finite_time = f;
            in_order = parse_entries-AreEntries limit [] items es read;
          })
    ]

read_items :
    (kind : SyncKind) (limit : Option Number) (created_at : Number) (items : Items)
    (m : SyncManifestPayload)
    → (if is_finite created_at
        then with_entries kind created_at (parse_entries limit [] items)
        else none)
      ≡ some m
    → IsManifest kind limit m
read_items kind limit created_at items m h = elim (Bool-cases (is_finite created_at)) [
  | inl f ↦ with_entries-IsManifest kind limit created_at items m f (rw f at h)
  | inr f ↦ cc (rw f at h)
]

payload_of_parts-IsManifest :
    (kind : SyncKind) (limit : Option Number) (header : Bool) (created_at entries : Option Json)
    (m : SyncManifestPayload)
    → payload_of_parts kind limit header created_at entries ≡ some m
    → IsManifest kind limit m
unfolding payload_of_parts
payload_of_parts-IsManifest kind limit true (some (Json.number t)) (some (Json.array items)) m h =
    read_items kind limit t items m h
payload_of_parts-IsManifest kind limit _ _ _ m h = cc

-- What the parser returns has passed its tests.
pub parse_manifest-IsManifest :
    (value : Json) (kind : SyncKind) (limit : Option Number) (m : SyncManifestPayload)
    → parse_manifest value kind limit ≡ some m
    → IsManifest kind limit m
unfolding parse_manifest
parse_manifest-IsManifest value kind limit m h = elim (Option-cases (fields_of value)) [
  | inl missing ↦ cc (rw missing at h)
  | inr (row, found) ↦ payload_of_parts-IsManifest kind limit _ _ _ m (rw found at h)
]

-- ===== src/Js/Json.antt =====
-- JSON-like values, and objects whose fields may be `undefined`, as the metadata of an event.
use tahuna_oss.Common.{String, Bool, Option, none, some, List, [], ◌∷◌}
use tahuna_oss.Js.Text.{Text}
use tahuna_oss.Js.Number.{Number, Whole, of_ℕ}

mutual
  pub data Json : Type 0 where
    null : Json
    bool : Bool → Json
    number : Number → Json
    str : Text → Json
    array : Items → Json
    object : Fields → Json

  pub data Items : Type 0 where
    nil : Items
    cons : Json → Items → Items

  pub data Fields : Type 0 where
    end : Fields
    field : String → Json → Fields → Fields

abbrev pub texts : List Text → Items
texts [] = nil
texts (t ∷ ts) = cons (str t) (texts ts)

-- `string[]` as a value.
abbrev pub text_array : List Text → Json
text_array ts = array (texts ts)

-- `Record<string, unknown>`: a field with `none` is present and `undefined`.
abbrev pub Metadata : Type 0
Metadata = List (String × Option Json)

-- A field that holds an optional string or an optional value.
abbrev pub opt_text : Option Text → Option Json
opt_text none = none
opt_text (some t) = some (str t)

-- `value || null` on an optional string.
abbrev pub text_or_null : Option Text → Option Json
text_or_null none = some null
text_or_null (some []) = some null
text_or_null (some t) = some (str t)

-- A floored number, or `undefined`, as a field.
abbrev pub opt_whole : Option Whole → Option Json
opt_whole none = none
opt_whole (some Whole.nan) = some (number Number.nan)
opt_whole (some Whole.infinite) = some (number Number.infinite)
opt_whole (some (Whole.whole n)) = some (number (of_ℕ n))

-- ===== src/Common/Patch.antt =====
-- A field of a database patch. `keep` is a field that the patch does not have, `unset` one that it
-- has with the value `undefined`, which removes the field of the document.
use mathlib.Core.Option.{Option, none, some}

pub data Change {ℓ} (A : Type ℓ) : Type ℓ where
  keep unset : Change A
  put : A → Change A

-- A field that is written as an optional value.
abbrev pub of_option {ℓ} : {A : Type ℓ} → Option A → Change A
of_option none = unset
of_option (some a) = put a

-- What the field holds after the patch, where it held `old`.
abbrev pub change {ℓ} : {A : Type ℓ} → Change A → Option A → Option A
change keep old = old
change unset old = none
change (put a) old = some a

-- The same for a field that every document has; there `unset` is not written.
abbrev pub change_required {ℓ} : {A : Type ℓ} → Change A → A → A
change_required keep old = old
change_required unset old = old
change_required (put a) old = a

-- A field that is present only where the optional value is.
abbrev pub put_some {ℓ} : {A : Type ℓ} → Option A → Change A
put_some none = keep
put_some (some a) = put a

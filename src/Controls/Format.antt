-- ===== src/Controls/Format.antt =====
-- `FormatControl` of src/cpip/core/format_control.py.
pub mod Laws
use core_pip.Prelude.{
  ℕ, ◌≡◌, ◌∙◌, ap, sym, subst, refl, ok_inj, ok_ne_err, Bool, true, false, not, ◌&&◌, ◌||◌, List,
  [], ◌∷◌, map, keep, Text, codes, text_ord, ◌=?◌, =?_iff, strip, split, is_nil, if◌then◌else◌,
  Result, ok, err, Bool-cases, inl, inr, arith,
}
use core_pip.Names.{canonicalize_name}
use core_pip.Controls.Sets.{
  TextSet, has, add, discard, has-add, has-discard, has-nil, entries_of, all_text, none_text,
  normalized_entry,
}

pub record FormatControl : Type 0 where
  pub no_binary : TextSet
  pub only_binary : TextSet

abbrev pub empty : FormatControl
empty = record { no_binary = []; only_binary = [] }

-- The set that an option extends, and the other one.
pub record Sides : Type 0 where
  pub target : TextSet
  pub opposite : TextSet

-- One round of the loop in `apply`, behind the normalization of the entry
abbrev pub apply_normalized : Text → Sides → Sides
apply_normalized e s =
    if e =? none_text
    then record s { target = [] }
    else if e =? all_text
    then record { target = add all_text (discard none_text s.target); opposite = [] }
    else record { target = add e s.target; opposite = discard e s.opposite }

unfoldable pub apply_entries : List Text → Sides → Sides
apply_entries [] s = s
apply_entries (entry ∷ rest) s = apply_entries rest (apply_normalized (normalized_entry entry) s)

pub data ControlError : Type 0 where
  unknown_kind : ControlError

abbrev pub is_kind : Text → Bool
is_kind k =
    k =? codes "no_binary"
    || k =? codes "only_binary"
    || k =? codes "no-binary"
    || k =? codes "only-binary"

abbrev pub is_only_binary : Text → Bool
is_only_binary k = k =? codes "only_binary" || k =? codes "only-binary"

-- Which of the two sets the kind extends.
abbrev pub sides_of : Bool → FormatControl → Sides
sides_of true c = record { target = c.only_binary; opposite = c.no_binary }
sides_of false c = record { target = c.no_binary; opposite = c.only_binary }

abbrev pub from_sides : Bool → Sides → FormatControl
from_sides true s = record { only_binary = s.target; no_binary = s.opposite }
from_sides false s = record { no_binary = s.target; only_binary = s.opposite }

unfoldable pub apply : Text → Text → FormatControl → Result ControlError FormatControl
unfolding apply_entries
apply kind value c =
    if not (is_kind kind)
    then err unknown_kind
    else ok (
        from_sides (is_only_binary kind)
          (apply_entries (entries_of value) (sides_of (is_only_binary kind) c)))

-- `allowed_formats`: whether binary and whether source artifacts are allowed
unfoldable pub allowed_formats : Text → FormatControl → Bool × Bool
allowed_formats project_name c =
    let canonical = canonicalize_name project_name in
    let allow_source = not (has all_text c.only_binary) in
    let allow_binary = not (has all_text c.no_binary) in
    if has canonical c.no_binary
    then (false, true)
    else if has canonical c.only_binary
    then (true, false)
    else (allow_binary, allow_source)

-- Options given one after another
abbrev pub apply_all : List (Text × Text) → FormatControl → Result ControlError FormatControl
apply_all [] c = ok c
apply_all ((kind, value) ∷ rest) c = elim (apply kind value c) [
  | err e ↦ err e
  | ok c' ↦ apply_all rest c'
]

-- ===== src/Controls/Release.antt =====
-- `ReleaseControl` of src/cpip/core/release_control.py.
pub mod Laws
use core_pip.Prelude.{
  ℕ, Bool, true, false, not, ◌||◌, Option, none, some, List, [], ◌∷◌, Text, codes, text_ord, ◌=?◌,
  starts_with, if◌then◌else◌, Result, ok, err,
}
use core_pip.Names.{canonicalize_name}
use core_pip.Controls.Sets.{
  TextSet, has, add, discard, entries_of, all_text, none_text, normalized_entry,
}

pub record ReleaseControl : Type 0 where
  pub all_releases : TextSet
  pub only_final : TextSet

abbrev pub empty : ReleaseControl
empty = record { all_releases = []; only_final = [] }

-- The set that an option extends, and the other one.
pub record Sides : Type 0 where
  pub target : TextSet
  pub opposite : TextSet

-- One round of the loop in `apply`, behind the normalization of the entry. Here ":all:" takes only
-- ":all:" out of the other set.
abbrev pub apply_normalized : Text → Sides → Sides
apply_normalized e s =
    if e =? none_text
    then record s { target = [] }
    else if e =? all_text
    then record {
      target = add all_text (discard none_text s.target);
      opposite = discard all_text s.opposite;
    }
    else record { target = add e s.target; opposite = discard e s.opposite }

unfoldable pub apply_entries : List Text → Sides → Sides
apply_entries [] s = s
apply_entries (entry ∷ rest) s = apply_entries rest (apply_normalized (normalized_entry entry) s)

pub data ControlError : Type 0 where
  unknown_kind requires_argument : ControlError

abbrev pub is_all_releases : Text → Bool
is_all_releases k = k =? codes "all_releases"

abbrev pub is_kind : Text → Bool
is_kind k = is_all_releases k || k =? codes "only_final"

abbrev pub sides_of : Bool → ReleaseControl → Sides
sides_of true c = record { target = c.all_releases; opposite = c.only_final }
sides_of false c = record { target = c.only_final; opposite = c.all_releases }

abbrev pub from_sides : Bool → Sides → ReleaseControl
from_sides true s = record { all_releases = s.target; only_final = s.opposite }
from_sides false s = record { only_final = s.target; all_releases = s.opposite }

unfoldable pub apply : Text → Text → ReleaseControl → Result ControlError ReleaseControl
unfolding apply_entries
apply kind value c =
    if not (is_kind kind)
    then err unknown_kind
    else if starts_with (codes "-") value
    then err requires_argument
    else ok (
        from_sides (is_all_releases kind)
          (apply_entries (entries_of value) (sides_of (is_all_releases kind) c)))

-- `allows_prereleases`; `none` leaves the question to the specifiers.
unfoldable pub allows_prereleases : Text → ReleaseControl → Option Bool
allows_prereleases project_name c =
    let canonical = canonicalize_name project_name in
    if has canonical c.all_releases
    then some true
    else if has canonical c.only_final
    then some false
    else if has all_text c.only_final
    then some false
    else if has all_text c.all_releases
    then some true
    else none

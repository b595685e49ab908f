-- ===== src/Controls/Format/Laws.antt =====
-- The two sets of a `FormatControl` stay apart, and the last option decides.
use core_pip.Prelude.{
  ◌≡◌, sym, subst, refl, ok_inj, ok_ne_err, Bool, true, false, ◌&&◌, ◌||◌, List, [], ◌∷◌, Text,
  text_ord, ◌=?◌, =?_iff, if◌then◌else◌, Result, ok, err, Bool-cases, inl, inr, arith,
}
use core_pip.Names.{canonicalize_name}
use core_pip.Controls.Sets.{
  TextSet, has, has-add, has-discard, has-nil, entries_of, all_text, none_text, normalized_entry,
}
use core_pip.Controls.Format.{
  FormatControl, empty, Sides, apply_normalized, apply_entries, ControlError, is_kind,
  is_only_binary, sides_of, from_sides, apply, allowed_formats, apply_all,
}

-- No entry is in both sets.
abbrev pub AreDisjoint : TextSet → TextSet → Type 0
AreDisjoint a b = (t : Text) → (has t a && has t b) ≡ false

pub record IsDisjoint (c : FormatControl) : Type 0 where
  pub apart : AreDisjoint c.no_binary c.only_binary

apply_normalized-apart :
    (e : Text) (s : Sides)
    → AreDisjoint s.target s.opposite
    → AreDisjoint (apply_normalized e s).target (apply_normalized e s).opposite
apply_normalized-apart e s d t =
    ground (arith, d t, has-nil t, has-add e t s.target, has-discard e t s.opposite)

apply_entries-apart :
    (l : List Text) (s : Sides)
    → AreDisjoint s.target s.opposite
    → AreDisjoint (apply_entries l s).target (apply_entries l s).opposite
unfolding apply_entries
apply_entries-apart [] s d = d
apply_entries-apart (e ∷ l) s d =
    apply_entries-apart l _ (apply_normalized-apart (normalized_entry e) s d)

sides_apart :
    (b : Bool) (c : FormatControl)
    → IsDisjoint c
    → AreDisjoint (sides_of b c).target (sides_of b c).opposite
sides_apart true c d t = ground (arith, d.apart t)
sides_apart false c d t = d.apart t

from_sides-IsDisjoint :
    (b : Bool) (s : Sides) → AreDisjoint s.target s.opposite → IsDisjoint (from_sides b s)
from_sides-IsDisjoint true s d = record { apart = λ t. ground (arith, d t) }
from_sides-IsDisjoint false s d = record { apart = d }

apply-IsDisjoint :
    (kind value : Text) (c c' : FormatControl)
    → IsDisjoint c
    → apply kind value c ≡ ok c'
    → IsDisjoint c'
unfolding apply
apply-IsDisjoint kind value c c' d h = elim (Bool-cases (is_kind kind)) [
  | inl known ↦
      let b = is_only_binary kind in
      let new : IsDisjoint (from_sides b (apply_entries (entries_of value) (sides_of b c))) =
        from_sides-IsDisjoint b _
          (apply_entries-apart (entries_of value) (sides_of b c) (sides_apart b c d)) in
      subst IsDisjoint (ok_inj (rw known at h)) new
  | inr other ↦ absurd (ok_ne_err (sym (rw other at h)))
]

apply_all-IsDisjoint :
    (options : List (Text × Text)) (c c' : FormatControl)
    → IsDisjoint c
    → apply_all options c ≡ ok c'
    → IsDisjoint c'
apply_all-IsDisjoint [] c c' d h = subst IsDisjoint (ok_inj h) d
apply_all-IsDisjoint ((kind, value) ∷ rest) c c' d h =
    go (apply kind value c) refl (λ m. apply_all-IsDisjoint rest m c')
  where
    go :
        (r : Result ControlError FormatControl)
        → apply kind value c ≡ r
        → ((m : FormatControl) → IsDisjoint m → apply_all rest m ≡ ok c' → IsDisjoint c')
        → IsDisjoint c'
    go (ok m) e later = later m (apply-IsDisjoint kind value c m d e) (rw (e, apply_all) at h)
    go (err x) e later = absurd (ok_ne_err (sym (rw (e, apply_all) at h)))

-- Whatever options were accepted one after another, every project may use some format: binary or
-- source artifacts or both.
pub allowed_formats_some :
    (options : List (Text × Text)) (c : FormatControl) (project : Text)
    → apply_all options empty ≡ ok c
    → ((allowed_formats project c).0 || (allowed_formats project c).1) ≡ true
unfolding allowed_formats
allowed_formats_some options c project h =
    let d =
      apply_all-IsDisjoint options empty c (record { apart = λ t. ground (arith, has-nil t) }) h in
    ground (arith, d.apart all_text)

apply_normalized-has :
    (n : Text) (s : Sides)
    → (n =? all_text || n =? none_text) ≡ false
    → (has n (apply_normalized n s).target ≡ true) × (has n (apply_normalized n s).opposite ≡ false)
apply_normalized-has n s h =
    ground (arith, has-add n n s.target, has-discard n n s.opposite, =?_iff n n)

named_allowed :
    (b : Bool) (s : Sides) (name : Text)
    → (has (canonicalize_name name) s.target ≡ true)
      × (has (canonicalize_name name) s.opposite ≡ false)
    → allowed_formats name (from_sides b s) ≡ (if b then (true, false) else (false, true))
unfolding allowed_formats
named_allowed true s name (inside, outside) = rw (inside, outside)
named_allowed false s name (inside, outside) = rw inside

-- After an option that names one project, that project is allowed exactly the format of the
-- option, whatever was chosen before.
pub allowed_formats-apply :
    (kind value name : Text) (c c' : FormatControl)
    → entries_of value ≡ name ∷ []
    → (name =? all_text || name =? none_text) ≡ false
    → (canonicalize_name name =? all_text || canonicalize_name name =? none_text) ≡ false
    → apply kind value c ≡ ok c'
    → allowed_formats name c' ≡ (if is_only_binary kind then (true, false) else (false, true))
unfolding allowed_formats apply apply_entries
allowed_formats-apply kind value name c c' one plain canonical h =
    let b = is_only_binary kind in
    let n = canonicalize_name name in
    elim (Bool-cases (is_kind kind)) [
      | inl known ↦
          subst (λ k. allowed_formats name k ≡ (if b then (true, false) else (false, true)))
            (ok_inj (rw (known, one, plain) at h))
            (named_allowed b (apply_normalized n (sides_of b c)) name
              (apply_normalized-has n (sides_of b c) canonical))
      | inr other ↦ absurd (ok_ne_err (sym (rw other at h)))
    ]

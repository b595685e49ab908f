-- ===== src/Controls/Release/Laws.antt =====
-- What an option of `ReleaseControl` decides.
use core_pip.Prelude.{
  ◌≡◌, sym, subst, Bool, true, false, ◌||◌, some, [], ◌∷◌, Text, codes, text_ord, ◌=?◌, =?_iff,
  starts_with, ok, ok_inj, ok_ne_err, Bool-cases, inl, inr, arith,
}
use core_pip.Names.{canonicalize_name}
use core_pip.Controls.Sets.{has, has-add, has-discard, entries_of, all_text, none_text}
use core_pip.Controls.Release.{
  ReleaseControl, Sides, apply_normalized, apply_entries, is_kind, is_all_releases, sides_of,
  from_sides, apply, allows_prereleases,
}

-- The entry of an option is a name, and the options have decided of it.
abbrev pub IsName : Text → Type 0
IsName name =
    ((name =? all_text || name =? none_text) ≡ false)
    × ((canonicalize_name name =? all_text || canonicalize_name name =? none_text) ≡ false)

module _ (n : Text) (s : Sides) (is_name : (n =? all_text || n =? none_text) ≡ false) where
  named_inside : has n (apply_normalized n s).target ≡ true
  named_inside = ground (arith, has-add n n s.target, =?_iff n n)

  named_outside : has n (apply_normalized n s).opposite ≡ false
  named_outside = ground (arith, has-discard n n s.opposite, =?_iff n n)

  -- Every other member of the two sets stays where it was.
  others_inside :
      (m : Text) → (m =? n) ≡ false → has m (apply_normalized n s).target ≡ has m s.target
  others_inside m differ = ground (arith, has-add n m s.target)

  others_outside :
      (m : Text) → (m =? n) ≡ false → has m (apply_normalized n s).opposite ≡ has m s.opposite
  others_outside m differ = ground (arith, has-discard n m s.opposite)

named_decided :
    (b : Bool) (s : Sides) (name : Text)
    → has (canonicalize_name name) s.target ≡ true
    → has (canonicalize_name name) s.opposite ≡ false
    → allows_prereleases name (from_sides b s) ≡ some b
unfolding allows_prereleases
named_decided true s name inside outside = rw inside
named_decided false s name inside outside = rw (outside, inside)

all_apart : (n : Text) → (n =? all_text || n =? none_text) ≡ false → (all_text =? n) ≡ false
all_apart n h = ground (arith, =?_iff n all_text, =?_iff all_text n)

others_same :
    (b : Bool) (c : ReleaseControl) (n project : Text)
    → (n =? all_text || n =? none_text) ≡ false
    → (canonicalize_name project =? n) ≡ false
    → allows_prereleases project (from_sides b (apply_normalized n (sides_of b c)))
      ≡ allows_prereleases project c
unfolding allows_prereleases
others_same true c n project named differ =
    let s = sides_of true c in
    rw (
      others_inside n s named (canonicalize_name project) differ,
      others_outside n s named (canonicalize_name project) differ,
      others_inside n s named all_text (all_apart n named),
      others_outside n s named all_text (all_apart n named),
    )
others_same false c n project named differ =
    let s = sides_of false c in
    rw (
      others_inside n s named (canonicalize_name project) differ,
      others_outside n s named (canonicalize_name project) differ,
      others_inside n s named all_text (all_apart n named),
      others_outside n s named all_text (all_apart n named),
    )

-- An accepted option that names one project decides of that project, whatever was chosen before:
-- prereleases are allowed after "all_releases" and refused after "only_final". It changes nothing
-- for a project of another canonical name.
pub allows_prereleases-apply :
    (kind value name other : Text) (c c' : ReleaseControl)
    → entries_of value ≡ name ∷ []
    → IsName name
    → (canonicalize_name other =? canonicalize_name name) ≡ false
    → apply kind value c ≡ ok c'
    → (allows_prereleases name c' ≡ some (is_all_releases kind))
      × (allows_prereleases other c' ≡ allows_prereleases other c)
unfolding apply apply_entries
allows_prereleases-apply kind value name other c c' one (plain, canonical) differ h =
    let b = is_all_releases kind in
    let n = canonicalize_name name in
    let s = sides_of b c in
    let Decided : ReleaseControl → Type 0 = λ k.
      (allows_prereleases name k ≡ some b)
      × (allows_prereleases other k ≡ allows_prereleases other c) in
    elim (Bool-cases (is_kind kind)) [
      | inr unknown ↦ absurd (ok_ne_err (sym (rw unknown at h)))
      | inl known ↦ elim (Bool-cases (starts_with (codes "-") value)) [
        | inl dash ↦ absurd (ok_ne_err (sym (rw (known, dash) at h)))
        | inr fine ↦ subst Decided (ok_inj (rw (known, fine, one, plain) at h)) (
          named_decided b (apply_normalized n s) name (named_inside n s canonical)
              (named_outside n s canonical),
          others_same b c n other canonical differ,
        )
      ]
    ]

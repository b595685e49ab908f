-- ===== src/Wheel/DistInfo/Valid.antt =====
-- Which archives are validated.
use mathlib.Core.Bool.{false≢true}
use core_pip.Prelude.{
  ◌≡◌, ◌∙◌, ◌↔◌, refl, sym, ap, subst, Bool, true, false, Option, none, some, List, [], ◌∷◌, ◌++◌,
  map, keep, Text, codes, starts_with, Result, ok, err, and_then, and_then-ok, ok_inj, ok_ne_err,
  Bool-cases, Option-cases, inl, inr,
}
use core_pip.Prelude.Int.{ℤ}
use core_pip.Wheel.DistInfo.{
  WheelError, match_form, dist_info_match_key, remove_suffix, is_wheel_entry, first_part,
  dist_info_loop, checked_directory, wheel_dist_info_dir, wheel_version_from_text, is_above,
  check_compatibility, read_text, validate_wheel, many_directories,
}

-- The directories of the members that are named WHEEL in a .dist-info directory
abbrev pub directories : List Text → List Text
directories names = map first_part (keep is_wheel_entry names)

abbrev pub is_named : Text → Text → Bool
is_named name d =
    starts_with (dist_info_match_key name) (match_form (remove_suffix (codes ".dist-info") d))

-- The loop, told by the directories alone
abbrev at_most_one : Option Text → List Text → Result WheelError (Option Text)
at_most_one found [] = ok found
at_most_one none (d ∷ []) = ok (some d)
at_most_one _ _ = err many_directories

loop_of_directories :
    (found : Option Text) (names : List Text)
    → dist_info_loop found names ≡ at_most_one found (directories names)
unfolding dist_info_loop
loop_of_directories none [] = refl
loop_of_directories (some d) [] = refl
loop_of_directories none (f ∷ names) = elim (Bool-cases (is_wheel_entry f)) [
  | inl e ↦
      rw (dist_info_loop, e)
        (loop_of_directories (some (first_part f)) names ∙ one (directories names))
  | inr e ↦ rw (dist_info_loop, e) (loop_of_directories none names)
]
  where
    one :
        (l : List Text) → at_most_one (some (first_part f)) l ≡ at_most_one none (first_part f ∷ l)
    one [] = refl
    one (d ∷ l) = refl
loop_of_directories (some d) (f ∷ names) = elim (Bool-cases (is_wheel_entry f)) [
  | inl e ↦ rw (dist_info_loop, e) refl
  | inr e ↦ rw (dist_info_loop, e) (loop_of_directories (some d) names)
]

head_of : (d dir : Text) → ◌≡◌ {A = List Text} (d ∷ []) (dir ∷ []) → d ≡ dir
head_of d dir h = cc

checked_iff :
    (name dir : Text) (l : List Text)
    → (and_then (at_most_one none l) (checked_directory name) ≡ ok dir)
      ↔ ((l ≡ dir ∷ []) × (is_named name dir ≡ true))
checked_iff name dir [] = (λ h. cc, λ h. cc)
checked_iff name dir (d ∷ []) = elim (Bool-cases (is_named name d)) [
  | inl e ↦ (
    λ h.
        let same : d ≡ dir = ok_inj (rw e at h) in
        (ap (λ x. x ∷ []) same, subst (λ x. is_named name x ≡ true) same e),
    λ k. rw e (ap ok (head_of d dir k.0)),
  )
  | inr e ↦ (
    λ h. absurd (ok_ne_err (sym (rw e at h))),
    λ k. absurd (false≢true (sym e ∙ ap (is_named name) (head_of d dir k.0) ∙ k.1)),
  )
]
checked_iff name dir (d ∷ e ∷ l) = (λ h. cc, λ h. cc)

pub wheel_dist_info_dir_iff :
    (names : List Text) (name dir : Text)
    → (wheel_dist_info_dir names name ≡ ok dir)
      ↔ ((directories names ≡ dir ∷ []) × (is_named name dir ≡ true))
unfolding wheel_dist_info_dir
wheel_dist_info_dir_iff names name dir =
    subst
      (λ r.
        (and_then r (checked_directory name) ≡ ok dir)
        ↔ ((directories names ≡ dir ∷ []) × (is_named name dir ≡ true)))
      (sym (loop_of_directories none names)) (checked_iff name dir (directories names))

-- What makes an archive valid, with the directory `dir`
pub record IsValid (read : Text → Option (List Text)) (names : List Text) (name dir : Text)
    : Type 0 where
  pub one_directory : directories names ≡ dir ∷ []
  pub named : is_named name dir ≡ true
  pub lines : List Text
  pub readable : read (dir ++ codes "/WHEEL") ≡ some lines
  pub version : List ℤ
  pub parsed : wheel_version_from_text lines ≡ ok version
  pub compatible : is_above version ≡ false

module _ (read : Text → Option (List Text)) (names : List Text) (name dir : Text) where
  read_text-ok :
      (path : Text) (lines : List Text) → read_text read path ≡ ok lines → read path ≡ some lines
  read_text-ok path lines h = elim (Option-cases (read path)) [
    | inl e ↦ absurd (ok_ne_err (sym (rw (e, read_text) at h)))
    | inr (l, e) ↦ e ∙ ap some (ok_inj (rw (e, read_text) at h))
  ]

  compatible-ok :
      (version : List ℤ) → check_compatibility version ≡ ok tt → is_above version ≡ false
  compatible-ok version h = elim (Bool-cases (is_above version)) [
    | inl e ↦ absurd (ok_ne_err (sym (rw (e, check_compatibility) at h)))
    | inr e ↦ e
  ]

  valid→ : validate_wheel read names name ≡ ok dir → IsValid read names name dir
  unfolding validate_wheel
  valid→ h =
      let (d, h1, rest1) = and_then-ok (wheel_dist_info_dir names name) _ dir h in
      let (lines, h2, rest2) = and_then-ok (read_text read (d ++ codes "/WHEEL")) _ dir rest1 in
      let (version, h3, rest3) = and_then-ok (wheel_version_from_text lines) _ dir rest2 in
      let (u, h4, last) = and_then-ok (check_compatibility version) _ dir rest3 in
      let found = (wheel_dist_info_dir_iff names name d).0 h1 in
      subst (IsValid read names name) (ok_inj last) (record {
        one_directory = found.0;
        named = found.1;
        lines = lines;
        readable = read_text-ok (d ++ codes "/WHEEL") lines h2;
        version = version;
        parsed = h3;
        compatible = compatible-ok version h4;
      })

  valid← : IsValid read names name dir → validate_wheel read names name ≡ ok dir
  unfolding validate_wheel
  valid← v =
      let path = dir ++ codes "/WHEEL" in
      let text : read_text read path ≡ ok v.lines = rw (read_text, v.readable) refl in
      let fine : check_compatibility v.version ≡ ok tt =
        rw (check_compatibility, v.compatible) refl in
      rw
        (
          (wheel_dist_info_dir_iff names name dir).1 (v.one_directory, v.named),
          text,
          v.parsed,
          fine,
        )
        refl

  -- A wheel is validated with the directory `dir` exactly if its archive has one member WHEEL
  -- in a directory at its top whose name ends in ".dist-info"; that directory is `dir`, and begins
  -- with the name of the project, whatever its case and separators; the member can be read, and has
  -- a Wheel-Version of integers, of which the first is at most 1.
  pub validate_wheel_iff : (validate_wheel read names name ≡ ok dir) ↔ IsValid read names name dir
  validate_wheel_iff = (valid→, valid←)

-- ===== src/Wheel/FileName.antt =====
-- The names of wheels that are read.
use mathlib.Core.List.{reverse-append, reverse-reverse}
use core_pip.Prelude.{
  ℕ, ◌≡◌, ◌∙◌, ap, refl, Bool, true, false, not, Option, none, some, List, [], ◌∷◌, ◌++◌, Text,
  codes, every, has_char, is_nil, nat_beq, split, join, push_first, ends_with, strip_prefix, Result,
  ok, err, if◌then◌else◌, Bool-cases, inl, inr, arith,
}
use core_pip.Names.{canonicalize_name}
use core_pip.Version.{Version}
use core_pip.Version.Build.{VersionError}
use core_pip.Wheel.Defs.{
  WheelFile, all_tags, parsed_wheel_tags, stem, wheel_of, wheel_of_parts, parse_wheel_filename,
}

-- No part has the separator.
abbrev pub are_apart : ℕ → List Text → Bool
are_apart sep parts = every (λ w. not (has_char sep w)) parts

split-alone : (sep : ℕ) (w : Text) → has_char sep w ≡ false → split sep w ≡ w ∷ []
unfolding split
split-alone sep [] h = refl
split-alone sep (c ∷ w) h = ground (arith, split-alone sep w, h)

split-before :
    (sep : ℕ) (w u : Text) → has_char sep w ≡ false → split sep (w ++ (sep ∷ u)) ≡ w ∷ split sep u
unfolding split
split-before sep [] u h = ground arith
split-before sep (c ∷ w) u h = ground (arith, split-before sep w u, h)

pub split-join :
    (sep : ℕ) (w : Text) (parts : List Text)
    → are_apart sep (w ∷ parts) ≡ true
    → split sep (join sep (w ∷ parts)) ≡ w ∷ parts
unfolding join
split-join sep w [] h = split-alone sep w (ground (arith, h))
split-join sep w (v ∷ parts) h =
    split-before sep w (join sep (v ∷ parts)) (ground (arith, h))
    ∙ ap (λ l. w ∷ l) (split-join sep v parts (ground (arith, h)))

strip_prefix-append : (p u : Text) → strip_prefix p (p ++ u) ≡ some u
strip_prefix-append [] u = refl
strip_prefix-append (c ∷ p) u = ground (arith, strip_prefix-append p u)

ends_with-append : (t : Text) → ends_with (codes ".whl") (t ++ codes ".whl") ≡ true
unfolding ends_with
ends_with-append t = rw (reverse-append t (codes ".whl")) refl

stem-append : (t : Text) → stem (t ++ codes ".whl") ≡ t
stem-append t = rw (reverse-append t (codes ".whl")) (reverse-reverse t)

push_first-ne-nil : (c : ℕ) (l : List Text) → is_nil (push_first c l) ≡ false
push_first-ne-nil c [] = refl
push_first-ne-nil c (w ∷ l) = refl

split-ne-nil : (sep : ℕ) (t : Text) → is_nil (split sep t) ≡ false
unfolding split
split-ne-nil sep [] = refl
split-ne-nil sep (c ∷ t) = elim (Bool-cases (nat_beq c sep)) [
  | inl e ↦ rw e refl
  | inr e ↦ rw e (push_first-ne-nil c (split sep t))
]

tags-ne-nil :
    (is fs ps : List Text)
    → is_nil is ≡ false
    → is_nil fs ≡ false
    → is_nil ps ≡ false
    → is_nil (all_tags is fs ps) ≡ false
tags-ne-nil [] fs ps h k l = cc
tags-ne-nil (i ∷ is) [] ps h k l = cc
tags-ne-nil (i ∷ is) (f ∷ fs) [] h k l = cc
tags-ne-nil (i ∷ is) (f ∷ fs) (p ∷ ps) h k l = refl

parsed_wheel_tags-ne-nil : (p a f : Text) → is_nil (parsed_wheel_tags p a f) ≡ false
unfolding parsed_wheel_tags
parsed_wheel_tags-ne-nil p a f =
    tags-ne-nil (split b'.' p) (split b'.' a) (split b'.' f) (split-ne-nil b'.' p)
      (split-ne-nil b'.' a) (split-ne-nil b'.' f)

-- The parts of a name, with a build tag or without
abbrev pub name_parts : Text → Text → Option Text → Text → Text → Text → List Text
name_parts d v none p a f = d ∷ v ∷ p ∷ a ∷ f ∷ []
name_parts d v (some b) p a f = d ∷ v ∷ b ∷ p ∷ a ∷ f ∷ []

-- "DISTRIBUTION-VERSION(-BUILD)-PYTHON-ABI-PLATFORM.whl"
abbrev pub wheel_name : Text → Text → Option Text → Text → Text → Text → Text
wheel_name d v b p a f = join b'-' (name_parts d v b p a f) ++ codes ".whl"

-- What stands in the name of a build tag
abbrev pub has_underscore : Option Text → Bool
has_underscore none = false
has_underscore (some b) = has_char b'_' b

-- The test of the tags never fails.
checked :
    (underscore nil : Bool) (r : Result VersionError Version) (make : Version → Option WheelFile)
    → nil ≡ false
    → (if underscore then none else elim r [ err e ↦ none | ok v ↦ if nil then none else make v ])
      ≡ (if underscore then none else elim r [ err e ↦ none | ok v ↦ make v ])
checked underscore nil (err e) make h = refl
checked underscore nil (ok v) make h = rw h refl

module _ (version_of : Text → Result VersionError Version) where
  read_name :
      (name base : Text)
      → ends_with (codes ".whl") name ≡ true
      → stem name ≡ base
      → parse_wheel_filename version_of name ≡ wheel_of_parts version_of (split b'-' base)
  unfolding parse_wheel_filename
  read_name name base e h =
      if_true (ends_with (codes ".whl") name) (wheel_of_parts version_of (split b'-' (stem name)))
        none e
      ∙ ap (λ t. wheel_of_parts version_of (split b'-' t)) h
    where
      if_true : (b : Bool) (x y : Option WheelFile) → b ≡ true → (if b then x else y) ≡ x
      if_true b x y e = rw e refl

  read_parts :
      (d v : Text) (b : Option Text) (p a f : Text)
      → are_apart b'-' (name_parts d v b p a f) ≡ true
      → parse_wheel_filename version_of (wheel_name d v b p a f) ≡ wheel_of version_of d v b p a f
  read_parts d v none p a f apart =
      let base = join b'-' (name_parts d v none p a f) in
      read_name (wheel_name d v none p a f) base (ends_with-append base) (stem-append base)
      ∙ ap (wheel_of_parts version_of) (split-join b'-' d (v ∷ p ∷ a ∷ f ∷ []) apart)
  read_parts d v (some b) p a f apart =
      let base = join b'-' (name_parts d v (some b) p a f) in
      read_name (wheel_name d v (some b) p a f) base (ends_with-append base) (stem-append base)
      ∙ ap (wheel_of_parts version_of) (split-join b'-' d (v ∷ b ∷ p ∷ a ∷ f ∷ []) apart)

  -- The name of a wheel whose five or six parts have no dash is read back: the result has the
  -- canonical name of the distribution, the version, the build tag where there is one, and the tags
  -- of all combinations. There is none exactly if the version is invalid or the build tag has an
  -- underscore.
  pub parse_wheel_filename-wheel_name :
      (d v : Text) (b : Option Text) (p a f : Text)
      → are_apart b'-' (name_parts d v b p a f) ≡ true
      → parse_wheel_filename version_of (wheel_name d v b p a f) ≡ (
          if has_underscore b then none else elim (version_of v) [
            | err e ↦ none
            | ok version ↦ some (record {
              name = canonicalize_name d;
              version = version;
              build_tag = b;
              tags = parsed_wheel_tags p a f;
            })
          ])
  parse_wheel_filename-wheel_name d v b p a f apart =
      read_parts d v b p a f apart
      ∙ checked (has_underscore b) (is_nil (parsed_wheel_tags p a f)) (version_of v)
          (λ version. some (record {
            name = canonicalize_name d;
            version = version;
            build_tag = b;
            tags = parsed_wheel_tags p a f;
          }))
          (parsed_wheel_tags-ne-nil p a f)

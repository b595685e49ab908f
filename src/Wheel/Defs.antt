-- ===== src/Wheel/Defs.antt =====
-- The tags and the file name of a wheel, of src/cpip/core/wheel.py.
use core_pip.Prelude.{
  ℕ, zero, suc, Bool, true, false, ◌||◌, Option, none, some, List, [], ◌∷◌, ◌++◌, map, drop, Text,
  codes, text_ord, nat_beq, is_nil, is_digit, has_char, lower, split, starts_with, ends_with,
  push_first, Result, ok, err, if◌then◌else◌,
}
use mathlib.Core.List.{reverse}
use core_pip.Names.{canonicalize_name}
use core_pip.Version.{Version}
use core_pip.Version.Build.{VersionError}
use core_pip.Version.Decimal.{int_of}

-- The cached forms of a tag are functions of these.
pub record WheelTag : Type 0 where
  pub interpreter : Text
  pub abi : Text
  pub platform : Text

abbrev pub interpreter_lower : WheelTag → Text
interpreter_lower t = lower t.interpreter

abbrev pub abi_lower : WheelTag → Text
abi_lower t = lower t.abi

abbrev pub platform_lower : WheelTag → Text
platform_lower t = lower t.platform

-- `str(tag)`
abbrev pub tag_text : WheelTag → Text
tag_text t = t.interpreter ++ (b'-' ∷ (t.abi ++ (b'-' ∷ t.platform)))

-- `text.split(sep, n)`
unfoldable pub split_at_most : ℕ → ℕ → Text → List Text
split_at_most sep n [] = [] ∷ []
split_at_most sep n (c ∷ t) = elim (nat_beq c sep) [
  | true ↦ elim n [ zero ↦ (c ∷ t) ∷ [] | suc k ↦ [] ∷ split_at_most sep k t ]
  | false ↦ push_first c (split_at_most sep n t)
]

abbrev pub is_macos : Text → Bool
is_macos platform = starts_with (codes "macosx_") platform

abbrev pub is_android : Text → Bool
is_android platform = starts_with (codes "android_") platform

abbrev pub is_ios : Text → Bool
is_ios platform = starts_with (codes "ios_") platform

-- `_platform_parts`, read only where the platform is of one of the three kinds
unfoldable pub platform_parts : Text → List Text
unfolding split_at_most
platform_parts platform =
    if is_macos platform || is_android platform
    then split_at_most b'_' 3 platform
    else split_at_most b'_' 4 platform

pub record WheelFile : Type 0 where
  pub name : Text
  pub version : Version
  pub build_tag : Option Text
  pub tags : List WheelTag

-- The three loops of `parsed_wheel_tags`
abbrev pub tags_for_abi : Text → Text → List Text → List WheelTag
tags_for_abi interpreter abi platforms =
    map (λ platform. record { interpreter = interpreter; abi = abi; platform = platform }) platforms

abbrev pub tags_for_interpreter : Text → List Text → List Text → List WheelTag
tags_for_interpreter interpreter [] platforms = []
tags_for_interpreter interpreter (abi ∷ abis) platforms =
    tags_for_abi interpreter abi platforms ++ tags_for_interpreter interpreter abis platforms

abbrev pub all_tags : List Text → List Text → List Text → List WheelTag
all_tags [] abis platforms = []
all_tags (interpreter ∷ interpreters) abis platforms =
    tags_for_interpreter interpreter abis platforms ++ all_tags interpreters abis platforms

unfoldable pub parsed_wheel_tags : Text → Text → Text → List WheelTag
unfolding split
parsed_wheel_tags python_tags abi_tags platform_tags =
    all_tags (split b'.' python_tags) (split b'.' abi_tags) (split b'.' platform_tags)

-- `if "/" in name or ...: name = os.path.basename(name)` on a POSIX system
abbrev pub basename_from : Text → Text → Text
basename_from last [] = last
basename_from last (c ∷ t) = basename_from (if nat_beq c b'/' then t else last) t

abbrev pub basename : Text → Text
basename name = basename_from name name

-- `name[:-4]` of a name that ends in ".whl"
abbrev pub stem : Text → Text
stem name = reverse (drop 4 (reverse name))

-- `Version(text)` is given.
module _ (version_of : Text → Result VersionError Version) where
  -- What stands behind the split: the checks of the build tag, the version and the tags.
  abbrev pub wheel_of : Text → Text → Option Text → Text → Text → Text → Option WheelFile
  wheel_of distribution version build python_tags abi_tags platform_tags =
      if elim build [ none ↦ false | some b ↦ has_char b'_' b ]
      then none
      else elim (version_of version) [
        | err e ↦ none
        | ok v ↦
            if is_nil (parsed_wheel_tags python_tags abi_tags platform_tags)
            then none
            else some (record {
              name = canonicalize_name distribution;
              version = v;
              build_tag = build;
              tags = parsed_wheel_tags python_tags abi_tags platform_tags;
            })
      ]

  abbrev pub wheel_of_parts : List Text → Option WheelFile
  wheel_of_parts (d ∷ v ∷ p ∷ a ∷ f ∷ []) = wheel_of d v none p a f
  wheel_of_parts (d ∷ v ∷ b ∷ p ∷ a ∷ f ∷ []) = wheel_of d v (some b) p a f
  wheel_of_parts _ = none

  unfoldable pub parse_wheel_filename : Text → Option WheelFile
  unfolding split ends_with parsed_wheel_tags
  parse_wheel_filename name =
      if ends_with (codes ".whl") name then wheel_of_parts (split b'-' (stem name)) else none

  unfoldable pub parse_wheel_file : Text → Option WheelFile
  unfolding parse_wheel_filename
  parse_wheel_file path = parse_wheel_filename (basename path)

-- The loop of `legacy_build_tag` over the characters
abbrev pub take_digits : Text → Text × Text
take_digits [] = ([], [])
take_digits (c ∷ t) =
    let rest = take_digits t in if is_digit c then (c ∷ rest.0, rest.1) else ([], c ∷ t)

-- `()` is `none`.
unfoldable pub legacy_build_tag : Option Text → Option (ℕ × Text)
legacy_build_tag none = none
legacy_build_tag (some value) =
    let (digits, suffix) = take_digits value in some (int_of digits, suffix)

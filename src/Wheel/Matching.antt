-- ===== src/Wheel/Matching.antt =====
-- Which tags an interpreter supports, of src/cpip/core/wheel.py. `none` stands for a `ValueError`
-- that `int` raises and nothing here catches.
use core_pip.Prelude.{
  ℕ, ◌+◌, Bool, true, false, not, ◌&&◌, ◌||◌, Option, none, some, List, [], ◌∷◌, ◌++◌, drop, keep,
  Text, codes, text_ord, Ord, pair_ord, ◌=?◌, ◌<=?◌, nat_beq, is_nil, starts_with, if◌then◌else◌,
}
use core_pip.Prelude.Int.{ℤ, int_ord}
use core_pip.Controls.{TextSet, has}
use core_pip.Caches.{Table, lookup}
use core_pip.Wheel.Number.{parse_int}
use core_pip.Wheel.Defs.{
  WheelTag, interpreter_lower, abi_lower, platform_lower, platform_parts, is_macos, is_ios,
  is_android, all_tags,
}

abbrev pub Arches : Type 0
Arches = Table Text TextSet

-- `MACOS_COMPATIBLE_ARCHES`
abbrev pub macos_compatible_arches : Arches
macos_compatible_arches =
    (codes "x86_64", codes "x86_64" ∷ codes "intel" ∷ codes "universal" ∷ [])
    ∷ (codes "i386", codes "i386" ∷ codes "intel" ∷ codes "universal" ∷ [])
    ∷ (codes "intel", codes "intel" ∷ codes "universal" ∷ [])
    ∷ (codes "arm64", codes "arm64" ∷ codes "universal2" ∷ [])
    ∷ (codes "aarch64", codes "aarch64" ∷ codes "universal2" ∷ [])
    ∷ (codes "ppc", codes "ppc" ∷ codes "universal" ∷ [])
    ∷ (codes "ppc64", codes "ppc64" ∷ codes "universal" ∷ [])
    ∷ (codes "universal", codes "universal" ∷ [])
    ∷ (codes "universal2", codes "universal2" ∷ [])
    ∷ []

-- `(int(a), int(b))`, as far as nothing raises
abbrev pub int_pair : Text → Text → Option (ℤ × ℤ)
int_pair a b = elim (parse_int a) [
  | none ↦ none
  | some x ↦ elim (parse_int b) [ none ↦ none | some y ↦ some (x, y) ]
]

instance abbrev pub pair_of_ints : Ord (ℤ × ℤ)
pair_of_ints = pair_ord int_ord int_ord

-- `wheel_version <= runtime_version`, with `wheel_version` read first
abbrev pub at_most_as_new : Option (ℤ × ℤ) → Option (ℤ × ℤ) → Option Bool
at_most_as_new none runtime = none
at_most_as_new (some w) none = none
at_most_as_new (some w) (some r) = some (w <=? r)

abbrev pub arch_fits : Text → Text → Bool
arch_fits runtime wheel = elim (lookup runtime macos_compatible_arches) [
  | none ↦ wheel =? runtime
  | some arches ↦ has wheel arches
]

-- `_macos_platform_matches_parts`
unfoldable pub macos_matches : List Text → List Text → Option Bool
unfolding lookup has
macos_matches (r0 ∷ r_major ∷ r_minor ∷ r_arch ∷ []) (w0 ∷ w_major ∷ w_minor ∷ w_arch ∷ []) =
    elim (at_most_as_new (int_pair w_major w_minor) (int_pair r_major r_minor)) [
      | none ↦ none
      | some false ↦ some false
      | some true ↦ some (arch_fits r_arch w_arch)
    ]
macos_matches _ _ = some false

-- `_ios_platform_matches_parts`
unfoldable pub ios_matches : List Text → List Text → Option Bool
ios_matches (r0 ∷ r_major ∷ r_minor ∷ r_arch ∷ r_env ∷ [])
      (w0 ∷ w_major ∷ w_minor ∷ w_arch ∷ w_env ∷ []) =
    if not (r_arch =? w_arch) || not (r_env =? w_env)
    then some false
    else at_most_as_new (int_pair w_major w_minor) (int_pair r_major r_minor)
ios_matches _ _ = some false

-- `int(wheel_api) <= int(runtime_api)`
abbrev pub int_le : Option ℤ → Option ℤ → Option Bool
int_le none runtime = none
int_le (some w) none = none
int_le (some w) (some r) = some (w <=? r)

-- `_android_platform_matches_parts`
unfoldable pub android_matches : List Text → List Text → Option Bool
android_matches (r0 ∷ r_api ∷ r_arch_a ∷ r_arch_b ∷ []) (w0 ∷ w_api ∷ w_arch_a ∷ w_arch_b ∷ []) =
    if not (r_arch_a =? w_arch_a && r_arch_b =? w_arch_b)
    then some false
    else int_le (parse_int w_api) (parse_int r_api)
android_matches _ _ = some false

-- The handler of the `ValueError`
abbrev pub or_false : Option Bool → Bool
or_false none = false
or_false (some b) = b

unfoldable pub interpreter_matches : Text → Text → Text → Bool
interpreter_matches runtime wheel abi =
    if runtime =? wheel
    then true
    else if abi =? codes "abi3"
        && starts_with (codes "cp") runtime
        && starts_with (codes "cp") wheel
    then or_false (int_le (parse_int (drop 2 wheel)) (parse_int (drop 2 runtime)))
    else wheel =? codes "py3"
      && (starts_with (codes "cp") runtime || starts_with (codes "py") runtime)

unfoldable pub platform_matches : Text → Text → Option Bool
unfolding macos_matches ios_matches android_matches
platform_matches runtime wheel =
    if runtime =? wheel
    then some true
    else if runtime =? codes "any" || wheel =? codes "any"
    then some (runtime =? wheel)
    else if is_macos runtime && is_macos wheel
    then macos_matches (platform_parts runtime) (platform_parts wheel)
    else if is_ios runtime && is_ios wheel
    then ios_matches (platform_parts runtime) (platform_parts wheel)
    else if is_android runtime && is_android wheel
    then android_matches (platform_parts runtime) (platform_parts wheel)
    else some false

unfoldable pub tag_matches : WheelTag → WheelTag → Option Bool
unfolding interpreter_matches platform_matches
tag_matches supported candidate =
    if interpreter_matches (interpreter_lower supported) (interpreter_lower candidate)
        (abi_lower candidate)
      && abi_lower supported =? abi_lower candidate
    then platform_matches (platform_lower supported) (platform_lower candidate)
    else some false

-- The inner loop of `wheel_tag_rank`
unfoldable pub matches_some : WheelTag → List WheelTag → Option Bool
matches_some supported [] = some false
matches_some supported (tag ∷ tags) =
    let rest = matches_some supported tags in
    elim (tag_matches supported tag) [ none ↦ none | some true ↦ some true | some false ↦ rest ]

-- The outer loop, from the index of its first tag: no rank is `some none`.
unfoldable pub rank_from : ℕ → List WheelTag → List WheelTag → Option (Option ℕ)
rank_from index [] tags = some none
rank_from index (supported ∷ rest) tags =
    let later = rank_from (index + 1) rest tags in
    elim (matches_some supported tags) [
      | none ↦ none
      | some true ↦ some (some index)
      | some false ↦ later
    ]

unfoldable pub wheel_tag_rank : List WheelTag → List WheelTag → Option (Option ℕ)
unfolding tag_matches matches_some rank_from
wheel_tag_rank tags supported = rank_from 0 supported tags

pub record TargetContext : Type 0 where
  pub platforms : List Text
  pub implementation : Option Text
  pub python_version : Option Text
  pub abis : List Text

-- `text or default`
abbrev pub or_default : Option Text → Text → Text
or_default none default = default
or_default (some t) default = if is_nil t then default else t

abbrev pub tags_or_default : List Text → List Text → List Text
tags_or_default l default = if is_nil l then default else l

-- The tags of an implementation and the digits of a version. `none` is the `IndexError` of an empty
-- text of digits.
abbrev pub tags_of : Text → Text → List Text → List Text → Option (List WheelTag)
tags_of implementation [] platforms abis = none
tags_of implementation (major ∷ digits) platforms abis =
    let impl_tag = implementation ++ (major ∷ digits) in
    some (
      all_tags (impl_tag ∷ (codes "py" ++ (major ∷ digits)) ∷ (codes "py" ++ (major ∷ [])) ∷ [])
        (tags_or_default abis (impl_tag ∷ codes "abi3" ∷ codes "none" ∷ []))
        (platforms ++ (codes "any" ∷ [])))

-- `CURRENT_PYTHON_VERSION_DIGITS` and `current_platform_tag()` are given.
unfoldable pub supported_wheel_tags : Text → Text → Option TargetContext → Option (List WheelTag)
supported_wheel_tags current platform none = tags_of (codes "cp") current (platform ∷ []) []
supported_wheel_tags current platform (some target) =
    tags_of (or_default target.implementation (codes "cp"))
      (keep (λ c. not (nat_beq c b'.')) (or_default target.python_version current))
      (tags_or_default target.platforms (platform ∷ [])) target.abis

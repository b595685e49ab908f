-- ===== src/Tests/Wheels.antt =====
-- Names and tags of wheels.
use core_pip.Prelude.{
  ℕ, ◌≡◌, refl, ◌&&◌, none, some, List, [], ◌∷◌, Text, codes, some_of, Result, ok, err, join, split,
  strip, ends_with, ◌↔◌, Option,
}
use core_pip.Prelude.Int.{pos, negsuc}
use core_pip.Names.{canonicalize_name}
use core_pip.Version.{Version}
use core_pip.Version.Build.{VersionError, new_version}
use core_pip.Wheel.{
  WheelTag, parsed_wheel_tags, parse_wheel_filename, legacy_build_tag, wheel_tag_rank,
  TargetContext, supported_wheel_tags, platform_matches, arch_fits,
}
use core_pip.Version.Decimal.{int_from}
use core_pip.Wheel.Number.{parse_int}
use core_pip.Wheel.Ranks.{first_index, agrees, wheel_tag_rank_lem}
use core_pip.Wheel.Universal.{py3_none_any, py3_none_any-supported}
use core_pip.Wheel.Macos.{
  macos_platform, is_at_most, platform_matches-macos, platform_matches-unread,
}
use core_pip.Wheel.FileName.{parse_wheel_filename-wheel_name}
use core_pip.Wheel.DistInfo.{
  is_wheel_entry, dist_info_match_key, dist_info_loop, wheel_dist_info_dir, version_value,
  wheel_version_from_text, validate_wheel,
}
use core_pip.Wheel.DistInfo.Valid.{IsValid, validate_wheel_iff}
use core_pip.Tests.Matcher.{reader}

abbrev version_of : Text → Result VersionError Version
version_of t = new_version reader t

numbers : parse_int (codes " -1_0 ") ≡ some (negsuc 9)
unfolding parse_int
numbers = refl

not_numbers : parse_int (codes "1__0") ≡ none
unfolding parse_int
not_numbers = refl

build : legacy_build_tag (some (codes "12b3")) ≡ some (12, codes "b3")
unfolding legacy_build_tag int_from
build = refl

-- Two interpreters and one platform
universal_tags :
    parsed_wheel_tags (codes "py2.py3") (codes "none") (codes "any")
    ≡ record { interpreter = codes "py2"; abi = codes "none"; platform = codes "any" }
      ∷ py3_none_any
      ∷ []
unfolding parsed_wheel_tags
universal_tags = refl

abbrev linux : List Text
linux = codes "linux_x86_64" ∷ []

abbrev target : TargetContext
target = record {
  platforms = linux;
  implementation = none;
  python_version = some (codes "3.12");
  abis = [];
}

abbrev tag : Text → Text → Text → WheelTag
tag i a p = record { interpreter = i; abi = a; platform = p }

abbrev supported : List WheelTag
supported =
    tag (codes "cp312") (codes "cp312") (codes "linux_x86_64")
    ∷ tag (codes "cp312") (codes "abi3") (codes "linux_x86_64")
    ∷ []

-- A wheel of an older interpreter with the stable ABI
abbrev stable : WheelTag
stable = tag (codes "cp39") (codes "abi3") (codes "Linux_x86_64")

wheel_tag_rank_lem_example :
    wheel_tag_rank (stable ∷ []) supported
    ≡ some (first_index (λ s. some_of (agrees s) (stable ∷ [])) 0 supported)
wheel_tag_rank_lem_example = wheel_tag_rank_lem (stable ∷ []) supported refl

stable_rank : wheel_tag_rank (stable ∷ []) supported ≡ some (some 1)
unfolding wheel_tag_rank parse_int
stable_rank = refl

abbrev old_target : TargetContext
old_target = record target { python_version = some (codes "2.7") }

abbrev old_tags : List WheelTag
unfolding supported_wheel_tags
old_tags = elim (supported_wheel_tags (codes "312") (codes "linux_x86_64") (some old_target)) [
  | none ↦ []
  | some l ↦ l
]

-- A target of Python 2.7
py3_none_any-supported_example :
    (i : ℕ) × (wheel_tag_rank (py3_none_any ∷ []) old_tags ≡ some (some i))
unfolding old_tags
py3_none_any-supported_example =
    py3_none_any-supported (codes "312") (codes "linux_x86_64") old_target old_tags refl refl

platform_matches-macos_example :
    platform_matches
      (macos_platform 11 0 (codes "arm64"))
      (macos_platform 10 9 (codes "universal2"))
    ≡ some (
        is_at_most (pos 10, pos 9) (pos 11, pos 0)
        && arch_fits (codes "arm64") (codes "universal2"))
platform_matches-macos_example =
    platform_matches-macos 11 0 10 9 (codes "arm64") (codes "universal2")

platform_matches-unread_example :
    platform_matches (macos_platform 11 0 (codes "arm64")) (codes "macosx_big_sur_arm64") ≡ none
platform_matches-unread_example =
    platform_matches-unread 11 0 (codes "arm64") (codes "big") (codes "sur") (codes "arm64") refl
      refl (unfold parse_int in refl)

parse_wheel_filename-wheel_name_example :
    parse_wheel_filename version_of (codes "Foo.Bar-1.0-1a-py3-none-any.whl")
    ≡ elim (version_of (codes "1.0")) [
      | err e ↦ none
      | ok version ↦ some (record {
        name = canonicalize_name (codes "Foo.Bar");
        version = version;
        build_tag = some (codes "1a");
        tags = parsed_wheel_tags (codes "py3") (codes "none") (codes "any");
      })
    ]
unfolding join
parse_wheel_filename-wheel_name_example =
    parse_wheel_filename-wheel_name version_of (codes "Foo.Bar") (codes "1.0") (some (codes "1a"))
      (codes "py3") (codes "none") (codes "any") refl

-- The members of an archive, and the text of one of them
abbrev members : List Text
members = codes "foo_bar/a.py" ∷ codes "Foo_Bar-1.0.dist-info/WHEEL" ∷ []

abbrev read_member : Text → Option (List Text)
read_member path = some (codes "wheel-version: 1.0" ∷ [] ∷ [])

members_valid :
    validate_wheel read_member members (codes "foo.bar") ≡ ok (codes "Foo_Bar-1.0.dist-info")
unfolding validate_wheel wheel_dist_info_dir dist_info_loop is_wheel_entry dist_info_match_key
    wheel_version_from_text version_value parse_int canonicalize_name split strip ends_with
members_valid = refl

validate_wheel_iff_example :
    (validate_wheel read_member members (codes "foo.bar") ≡ ok (codes "Foo_Bar-1.0.dist-info"))
    ↔ IsValid read_member members (codes "foo.bar") (codes "Foo_Bar-1.0.dist-info")
validate_wheel_iff_example =
    validate_wheel_iff read_member members (codes "foo.bar") (codes "Foo_Bar-1.0.dist-info")

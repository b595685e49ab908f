-- ===== src/Wheel/DistInfo.antt =====
-- The validation of a wheel archive: its .dist-info directory and its Wheel-Version. The names of
-- the members and reading one, as the lines of its text, are given.
pub mod Valid
use core_pip.Prelude.{
  partition, ℕ, suc, ◌≡◌, ◌↔◌, refl, sym, Bool, true, false, not, ◌&&◌, ◌||◌, Option, none, some,
  List, [], ◌∷◌, ◌++◌, map, keep, Text, text_ord, codes, ◌=?◌, is_nil, nat_beq, length, lower,
  strip, split, starts_with, ends_with, strip_prefix, Result, ok, err, and_then, and_then-ok,
  ok_inj, ok_ne_err, if◌then◌else◌, gt,
}
use core_pip.Prelude.Int.{ℤ, pos, int_cmp}
use core_pip.Names.{canonicalize_name}
use core_pip.Wheel.Number.{parse_int}
use mathlib.Core.List.{reverse}

-- An `UnsupportedWheel` by its reason
pub data WheelError : Type 0 where
  many_directories : WheelError
  no_directory : WheelError
  other_directory : WheelError
  unreadable : WheelError
  no_version : WheelError
  invalid_version : WheelError
  incompatible_version : WheelError

abbrev pub is_name_separator : ℕ → Bool
is_name_separator c = nat_beq c b'-' || nat_beq c b'_' || nat_beq c b'.'

-- `re.sub(r"[-_.]+", "", text).casefold()`
abbrev pub match_form : Text → Text
match_form t = lower (keep (λ c. not (is_name_separator c)) t)

unfoldable pub dist_info_match_key : Text → Text
unfolding canonicalize_name
dist_info_match_key name = match_form (canonicalize_name name)

-- `text.removesuffix(suffix)`
abbrev pub remove_suffix : Text → Text → Text
remove_suffix suffix t = elim (strip_prefix (reverse suffix) (reverse t)) [
  | none ↦ t
  | some rest ↦ reverse rest
]

unfoldable pub is_wheel_entry : Text → Bool
unfolding ends_with
is_wheel_entry filename =
    ends_with (codes ".dist-info/WHEEL") filename
    && nat_beq (length (keep (nat_beq b'/') filename)) 1

-- `filename.split("/", 1)[0]`
abbrev pub first_part : Text → Text
first_part filename = elim (partition b'/' filename) [ none ↦ filename | some (a, b) ↦ a ]

-- The loop over the members
unfoldable pub dist_info_loop : Option Text → List Text → Result WheelError (Option Text)
unfolding is_wheel_entry
dist_info_loop found [] = ok found
dist_info_loop found (filename ∷ names) = elim (is_wheel_entry filename) [
  | false ↦ dist_info_loop found names
  | true ↦ elim found [
    | none ↦ dist_info_loop (some (first_part filename)) names
    | some d ↦ err many_directories
  ]
]

abbrev pub checked_directory : Text → Option Text → Result WheelError Text
checked_directory name none = err no_directory
checked_directory name (some d) =
    if starts_with (dist_info_match_key name) (match_form (remove_suffix (codes ".dist-info") d))
    then ok d
    else err other_directory

unfoldable pub wheel_dist_info_dir : List Text → Text → Result WheelError Text
unfolding dist_info_loop dist_info_match_key
wheel_dist_info_dir names name = and_then (dist_info_loop none names) (checked_directory name)

-- The value of the first header "Wheel-Version", before the first empty line
unfoldable pub version_value : List Text → Option Text
unfolding strip
version_value [] = none
version_value (line ∷ lines) =
    let rest = version_value lines in
    if is_nil line then none else elim (partition b':' line) [
      | none ↦ rest
      | some (name, value) ↦
          if lower name =? codes "wheel-version" then some (strip value) else rest
    ]

-- `tuple(map(int, parts))`
abbrev pub ints_of : List Text → Result WheelError (List ℤ)
ints_of [] = ok []
ints_of (part ∷ parts) = elim (parse_int part) [
  | none ↦ err invalid_version
  | some i ↦ and_then (ints_of parts) (λ is. ok (i ∷ is))
]

unfoldable pub wheel_version_from_text : List Text → Result WheelError (List ℤ)
unfolding version_value split
wheel_version_from_text lines = elim (version_value lines) [
  | none ↦ err no_version
  | some value ↦ ints_of (split b'.' value)
]

-- Whether the first number, of which there is one, is above that of `VERSION_COMPATIBLE`
abbrev pub is_above : List ℤ → Bool
is_above [] = false
is_above (major ∷ rest) = elim (int_cmp major (pos 1)) [ gt ↦ true | _ ↦ false ]

abbrev pub check_compatibility : List ℤ → Result WheelError (Unit {0})
check_compatibility version = if is_above version then err incompatible_version else ok tt

module _ (read : Text → Option (List Text)) where
  abbrev pub read_text : Text → Result WheelError (List Text)
  read_text path = elim (read path) [ none ↦ err unreadable | some lines ↦ ok lines ]

  unfoldable pub validate_wheel : List Text → Text → Result WheelError Text
  unfolding wheel_dist_info_dir wheel_version_from_text
  validate_wheel names name = and_then (wheel_dist_info_dir names name) (λ d.
      and_then (read_text (d ++ codes "/WHEEL")) (λ lines.
        and_then (wheel_version_from_text lines)
          (λ version. and_then (check_compatibility version) (λ _. ok d))))

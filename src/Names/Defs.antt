-- ===== src/Names/Defs.antt =====
-- `NORMALIZE_RE` and `canonicalize_name` of src/cpip/core/names.py.
use core_pip.Prelude.{
  ℕ, Bool, false, ◌&&◌, ◌||◌, not, [], ◌∷◌, Text, nat_beq, islower, lower, has_char, if◌then◌else◌,
}

-- The characters of the class `[-_.]`.
abbrev pub is_separator : ℕ → Bool
is_separator c = nat_beq c b'-' || nat_beq c b'_' || nat_beq c b'.'

-- `NORMALIZE_RE.sub(mark, text)`: each maximal run of separators becomes one `mark`. The flag
-- says that the character before was a separator.
abbrev pub normalize_sub : ℕ → Bool → Text → Text
normalize_sub mark in_run [] = []
normalize_sub mark in_run (c ∷ t) =
    let rest = normalize_sub mark (is_separator c) t in
    if is_separator c then (if in_run then rest else mark ∷ rest) else c ∷ rest

-- `NORMALIZE_RE.sub("-", text)`
abbrev pub collapse : Bool → Text → Text
collapse = normalize_sub b'-'

-- `"--" in text`
abbrev pub has_double_dash : Text → Bool
has_double_dash [] = false
has_double_dash (c ∷ []) = false
has_double_dash (c ∷ d ∷ t) = nat_beq c b'-' && nat_beq d b'-' || has_double_dash (d ∷ t)

-- The test under which the name is returned as it is.
abbrev pub is_canonical : Text → Bool
is_canonical name =
    islower name
    && not (has_char b'_' name)
    && not (has_char b'.' name)
    && not (has_double_dash name)

-- The substitution without the short cut.
abbrev pub substituted : Text → Text
substituted name = lower (collapse false name)

unfoldable pub canonicalize_name : Text → Text
canonicalize_name name = if is_canonical name then name else substituted name

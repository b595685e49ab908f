-- ===== src/Wheel/Number.antt =====
-- Python's `int(text)`, where the program does not know that the text is a number.
use mathlib.Core.Option
use core_pip.Prelude.{
  ℕ, zero, suc, ◌+◌, ◌-◌, ◌*◌, Bool, true, false, ◌&&◌, Option, none, some, [], ◌∷◌, Text, is_digit,
  nat_beq, strip, if◌then◌else◌,
}
use core_pip.Prelude.Int.{ℤ, pos, negsuc}

-- Digits with single underscores between them; `after_digit` says what stands before.
unfoldable pub read_digits : Bool → ℕ → Text → Option ℕ
read_digits after_digit n [] = if after_digit then some n else none
read_digits after_digit n (c ∷ t) = elim (is_digit c) [
  | true ↦ read_digits true (n * 10 + (c - 48)) t
  | false ↦ elim (nat_beq c b'_' && after_digit) [ true ↦ read_digits false n t | false ↦ none ]
]

abbrev pub negated : ℕ → ℤ
negated n = elim n [ zero ↦ pos 0 | suc k ↦ negsuc k ]

abbrev pub read_signed : Text → Option ℤ
read_signed [] = none
read_signed (c ∷ t) =
    if nat_beq c b'-'
    then Option.map negated (read_digits false 0 t)
    else if nat_beq c b'+'
    then Option.map pos (read_digits false 0 t)
    else Option.map pos (read_digits false 0 (c ∷ t))

-- `int(text)`; `none` for its `ValueError`
unfoldable pub parse_int : Text → Option ℤ
unfolding read_digits strip
parse_int t = read_signed (strip t)

-- ===== src/RequirementFile/Defs.antt =====
-- How the text of a requirements file is cut into the lines that are parsed, in the order in which
-- the stack of tasks gives them. The result of `splitlines` is given.
use mathlib.Core.List.{reverse}
use core_pip.Prelude.{
  ℕ, suc, Bool, true, false, not, ◌&&◌, Option, none, some, List, [], ◌∷◌, Text, codes, is_nil,
  is_some, keep, drop_last, lstrip, strip, starts_with, ends_with, if◌then◌else◌,
}

-- `text.rstrip()`
abbrev pub rstrip : Text → Text
rstrip t = reverse (lstrip (reverse t))

abbrev pub behind : ℕ → Option Text → Option Text
behind c none = none
behind c (some t) = some (c ∷ t)

-- `raw_line.split(" #", 1)[0]` where there is such a part
abbrev pub before_comment : Text → Option Text
before_comment [] = none
before_comment (c ∷ t) =
    let rest = before_comment t in
    if starts_with (codes " #") (c ∷ t) then some [] else behind c rest

abbrev pub is_comment : Text → Bool
is_comment line = starts_with (codes "#") (strip line)

-- A line without its comment
unfoldable pub cleaned : Text → Text
unfolding strip
cleaned raw =
    let line : Text = elim (before_comment raw) [ none ↦ raw | some t ↦ rstrip t ] in
    if is_comment line then [] else line

-- A line that ends in a backslash, which has the code point 92, without it
unfoldable pub continued : Text → Option Text
unfolding ends_with
continued line = if ends_with (92 ∷ []) line then some (rstrip (drop_last line)) else none

-- `processed.append(continuation)` if there is one
abbrev pub append_some : Option (ℕ × Text) → List (ℕ × Text) → List (ℕ × Text)
append_some none rest = rest
append_some (some l) rest = l ∷ rest

-- The loop over the lines, from the line with the number `n`: what is appended to `processed`
unfoldable pub lines_from : Option (ℕ × Text) → ℕ → List Text → List (ℕ × Text)
unfolding cleaned continued
lines_from continuation n [] = append_some continuation []
lines_from continuation n (raw ∷ lines) =
    append_some continuation (elim (is_some continuation && is_nil (cleaned raw)) [
      | true ↦ lines_from none (suc n) lines
      | false ↦ elim (continued (cleaned raw)) [
        | some t ↦ lines_from (some (n, t)) (suc n) lines
        | none ↦ (n, cleaned raw) ∷ lines_from none (suc n) lines
      ]
    ])

-- `line.strip() and not line.strip().startswith("#")`
unfoldable pub is_live : ℕ × Text → Bool
unfolding strip
is_live (n, line) = not (is_nil (strip line)) && not (is_comment line)

unfoldable pub requirement_lines : List Text → List (ℕ × Text)
unfolding lines_from is_live
requirement_lines lines = keep is_live (lines_from none 1 lines)

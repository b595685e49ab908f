-- ===== src/Requirement/Marker.antt =====
-- `split_marker` of src/cpip/core/packaging.py: the requirement and its environment marker.
use core_pip.Prelude.{
  ℕ, ◌≡◌, refl, Bool, false, not, ◌&&◌, ◌||◌, Option, none, some, [], ◌∷◌, Text, strip, has_char,
  nat_beq, is_some, Option-cases, inl, inr, if◌then◌else◌, arith,
}

abbrev pub is_quote : ℕ → Bool
is_quote c = nat_beq c b'\'' || nat_beq c b'"'

-- One more character in front of the text before a split.
abbrev pub before : ℕ → Option (Text × Text) → Option (Text × Text)
before c none = none
before c (some (head, rest)) = some (c ∷ head, rest)

-- The text before and behind the first semicolon: `value.find(";")` with the two slices
unfoldable pub find_semicolon : Text → Option (Text × Text)
find_semicolon [] = none
find_semicolon (c ∷ t) =
    let rest = find_semicolon t in if nat_beq c b';' then some ([], t) else before c rest

-- `None if in_quote == char else char`
abbrev pub toggled : Option ℕ → ℕ → Option ℕ
toggled none c = some c
toggled (some q) c = if nat_beq q c then none else some c

-- The loop over the characters, to the first semicolon outside quotes
unfoldable pub scan : Option ℕ → Text → Option (Text × Text)
scan in_quote [] = none
scan in_quote (c ∷ t) =
    let quoted = scan (toggled in_quote c) t in
    let plain = scan in_quote t in
    if is_quote c
    then before c quoted
    else if nat_beq c b';' && not (is_some in_quote)
    then some ([], t)
    else before c plain

-- Both parts stripped, or the value as it is
abbrev pub parts_of : Text → Option (Text × Text) → Text × Option Text
parts_of value none = (value, none)
parts_of value (some (head, rest)) = (strip head, some (strip rest))

unfoldable pub split_marker : Text → Text × Option Text
unfolding find_semicolon scan
split_marker value = elim (find_semicolon value) [
  | none ↦ (value, none)
  | some (head, rest) ↦
      if not (has_char b'\'' head) && not (has_char b'"' head)
      then (strip head, some (strip rest))
      else parts_of value (scan none value)
]

scan_no_semicolon : (q : Option ℕ) (t : Text) → find_semicolon t ≡ none → scan q t ≡ none
unfolding find_semicolon scan
scan_no_semicolon q [] h = refl
scan_no_semicolon q (c ∷ t) h = elim (Option-cases (find_semicolon t)) [
  | inl e ↦ ground (arith, scan_no_semicolon (toggled q c) t e, scan_no_semicolon q t e)
  | inr (p, e) ↦ absurd (ground arith)
]

scan_no_quote :
    (t head rest : Text)
    → find_semicolon t ≡ some (head, rest)
    → has_char b'\'' head ≡ false
    → has_char b'"' head ≡ false
    → scan none t ≡ some (head, rest)
unfolding find_semicolon scan
scan_no_quote [] head rest f a b = cc
scan_no_quote (c ∷ t) head rest f a b = elim (Option-cases (find_semicolon t)) [
  | inl e ↦ ground arith
  | inr ((head', rest'), e) ↦ ground (arith, scan_no_quote t head' rest' e)
]

-- For every text the two short cuts, for a text with no semicolon and for one with no quote before
-- its first semicolon, give what the loop over the characters gives.
pub split_marker_lem : (value : Text) → split_marker value ≡ parts_of value (scan none value)
unfolding split_marker
split_marker_lem value = elim (Option-cases (find_semicolon value)) [
  | inl e ↦ rw (e, split_marker) (rw (scan_no_semicolon none value e))
  | inr ((head, rest), e) ↦ ground (arith, scan_no_quote value head rest e)
]

-- ===== src/Tests/Markers.antt =====
-- Markers.
use core_pip.Prelude.{
  ℕ, zero, suc, ◌≡◌, ◌-◌, refl, Bool, false, ◌||◌, Option, none, some, List, [], ◌∷◌, ◌++◌, Text,
  codes, starts_with, push_first, length, strip, nat_beq, get_or, last_or, if◌then◌else◌, ends_with,
}
use core_pip.Markers.{
  Strips, strip_grouping_parentheses, strip_grouping_parentheses_lem, same, MarkerClause,
  ReadsNoParenthesis, marker_applies_internal, grouped_or_is_false,
}
use core_pip.Tests.Matcher.{reader}

-- A text split at each `mark`, of which so many characters are still to be skipped.
unfoldable split_at : Text → ℕ → Text → List Text
split_at mark skip [] = [] ∷ []
split_at mark (suc skip) (c ∷ t) = split_at mark skip t
split_at mark zero (c ∷ t) =
    let found = starts_with mark (c ∷ t) in
    let rest = split_at mark (if found then length mark - 1 else 0) t in
    if found then [] ∷ rest else push_first c rest

abbrev or_parts : Text → List Text
or_parts = split_at (codes " or ") 0

abbrev and_parts : Text → List Text
and_parts = split_at (codes " and ") 0

abbrev encloses : Text → Bool
encloses t = nat_beq (get_or t 0 0) b'(' || nat_beq (last_or t 0) b')'

-- Every text without parentheses at its ends is read, as a comparison with the empty text.
unfoldable read : Text → Option MarkerClause
read t = if encloses t then none else some (record { key = t; op = same; expected = [] })

read-ReadsNoParenthesis : ReadsNoParenthesis read
unfolding read
read-ReadsNoParenthesis t h = rw h

abbrev left : Text
left = codes "a == '1'"

abbrev right : Text
right = codes "b == '2'"

abbrev grouped : Text
grouped = codes "(a == '1' or b == '2') and c == '3'"

abbrev second : Text
second = codes "b == '2') and c == '3'"

left-strip : strip (b'(' ∷ left) ≡ b'(' ∷ left
unfolding strip
left-strip = refl

right-strip : strip (right ++ codes ")") ≡ right ++ codes ")"
unfolding strip
right-strip = refl

grouped_parts : or_parts grouped ≡ (b'(' ∷ left) ∷ second ∷ []
unfolding split_at
grouped_parts = refl

left_parts : and_parts (b'(' ∷ left) ≡ (b'(' ∷ left) ∷ []
unfolding split_at
left_parts = refl

second_parts : and_parts second ≡ (right ++ codes ")") ∷ codes "c == '3'" ∷ []
unfolding split_at
second_parts = refl

grouped_or_is_false_example :
    marker_applies_internal reader or_parts and_parts read grouped (λ key. codes "1") [] ≡ false
grouped_or_is_false_example =
    grouped_or_is_false reader or_parts and_parts read grouped left right second
      (codes "c == '3'" ∷ []) (λ key. codes "1") [] read-ReadsNoParenthesis refl refl left-strip
      right-strip grouped_parts left_parts second_parts

strip_grouping_parentheses_lem_example :
    Strips (codes "((a) and (b))") (strip_grouping_parentheses (codes "((a) and (b))"))
strip_grouping_parentheses_lem_example = strip_grouping_parentheses_lem (codes "((a) and (b))")

-- One pair encloses the text; the other two do not.
one_pair : strip_grouping_parentheses (codes "((a) and (b))") ≡ codes "(a) and (b)"
unfolding strip_grouping_parentheses strip ends_with
one_pair = refl

-- ===== src/Markers/Disjunction.antt =====
-- What becomes of a disjunction in parentheses.
use core_pip.Prelude.{
  ap₂, some_of, ℕ, zero, suc, ◌≡◌, ◌∙◌, ap, refl, Bool, true, false, ◌||◌, Option, none, List, [],
  ◌∷◌, ◌++◌, Text, codes, strip, has_char, nat_beq, get_or, last_or, length, arith,
}
use core_pip.Version.Build.{Groups}
use core_pip.Controls.{TextSet}
use core_pip.Markers.Defs.{
  clauses_hold, closes_last, inner, strip_grouping_loop, strip_grouping_parentheses, MarkerClause,
  marker_applies_internal,
}

-- The pattern of a clause begins with a word and ends with a quote: it reads no text that begins
-- with "(" or ends with ")".
abbrev pub ReadsNoParenthesis : (Text → Option MarkerClause) → Type 0
ReadsNoParenthesis read =
    (t : Text) → (nat_beq (get_or t 0 0) b'(' || nat_beq (last_or t 0) b')') ≡ true → read t ≡ none

abbrev pub has_parenthesis : Text → Bool
has_parenthesis t = has_char b'(' t || has_char b')' t

not_closed : (d : ℕ) (t : Text) → has_parenthesis t ≡ false → closes_last (suc d) t ≡ false
not_closed d [] h = ground arith
not_closed d (c ∷ t) h = ground (arith, not_closed d t)

loop_stops : (rounds : ℕ) (text : Text) → inner text ≡ none → strip_grouping_loop rounds text ≡ text
unfolding strip_grouping_loop
loop_stops zero text h = refl
loop_stops (suc rounds) text h = rw h

opened_stays :
    (a : Text) → has_parenthesis a ≡ false → strip_grouping_parentheses (b'(' ∷ a) ≡ b'(' ∷ a
unfolding strip_grouping_parentheses
opened_stays a h = loop_stops (length (b'(' ∷ a)) (b'(' ∷ a) (ground (arith, not_closed 0 a h))

last_or-append : (b : Text) (c : ℕ) → last_or (b ++ (c ∷ [])) 0 ≡ c
last_or-append [] c = refl
last_or-append (d ∷ []) c = refl
last_or-append (d ∷ e ∷ b) c = last_or-append (e ∷ b) c

inner_of_closed : (b : Text) → has_parenthesis b ≡ false → inner (b ++ codes ")") ≡ none
inner_of_closed [] h = refl
inner_of_closed (c ∷ b) h = ground arith

closed_stays :
    (b : Text)
    → has_parenthesis b ≡ false
    → strip_grouping_parentheses (b ++ codes ")") ≡ b ++ codes ")"
unfolding strip_grouping_parentheses
closed_stays b h = loop_stops (length (b ++ codes ")")) (b ++ codes ")") (inner_of_closed b h)

module _ (match : Text → Option Groups) (or_parts and_parts : Text → List Text)
    (read : Text → Option MarkerClause) (env : Text → Text) (extras : TextSet) where
  unread_clause :
      (c : Text) (rest : List Text)
      → strip c ≡ c
      → strip_grouping_parentheses c ≡ c
      → read c ≡ none
      → clauses_hold match or_parts and_parts read env extras (c ∷ rest) ≡ false
  unread_clause c rest stripped kept unread =
      let e : read (strip_grouping_parentheses (strip c)) ≡ none =
        ap (λ t. read (strip_grouping_parentheses t)) stripped ∙ ap read kept ∙ unread in
      rw (e, clauses_hold)

-- The marker "(A or B) and C" is split at "or" before its parentheses are looked at, into "(A" and
-- "B) and C". If A and B have no parenthesis, and no "and", neither part can be read, so the marker
-- is false in every environment and for all extras.
pub grouped_or_is_false :
    (match : Text → Option Groups) (or_parts and_parts : Text → List Text)
    (read : Text → Option MarkerClause) (marker a b second : Text) (rest : List Text)
    (env : Text → Text) (extras : TextSet)
    → ReadsNoParenthesis read
    → has_parenthesis a ≡ false
    → has_parenthesis b ≡ false
    → strip (b'(' ∷ a) ≡ b'(' ∷ a
    → strip (b ++ codes ")") ≡ b ++ codes ")"
    → or_parts marker ≡ (b'(' ∷ a) ∷ second ∷ []
    → and_parts (b'(' ∷ a) ≡ (b'(' ∷ a) ∷ []
    → and_parts second ≡ (b ++ codes ")") ∷ rest
    → marker_applies_internal match or_parts and_parts read marker env extras ≡ false
unfolding marker_applies_internal
grouped_or_is_false match or_parts and_parts read marker a b second rest env extras reads no_a no_b
      strip_a strip_b or and_a and_b =
    let first : read (b'(' ∷ a) ≡ none = reads (b'(' ∷ a) (ground arith) in
    let other : read (b ++ codes ")") ≡ none =
      reads (b ++ codes ")") (ground (arith, last_or-append b b')')) in
    let hold = clauses_hold match or_parts and_parts read env extras in
    let left : hold (and_parts (b'(' ∷ a)) ≡ false =
      ap hold and_a
      ∙ unread_clause match or_parts and_parts read env extras (b'(' ∷ a) [] strip_a
          (opened_stays a no_a) first in
    let right : hold (and_parts second) ≡ false =
      ap hold and_b
      ∙ unread_clause match or_parts and_parts read env extras (b ++ codes ")") rest strip_b
          (closed_stays b no_b) other in
    ap (some_of (λ part. hold (and_parts part))) or ∙ ap₂ (λ x y. x || (y || false)) left right

-- ===== src/Markers/Defs.antt =====
-- From `strip_grouping_parentheses` to `marker_applies_internal`. Splitting at the words "or" and
-- "and" and matching a clause are the work of Python's `re` and parameters.
use core_pip.Prelude.{
  ℕ, zero, suc, ◌+◌, ◌-◌, Bool, true, false, not, ◌&&◌, Option, none, some, List, [], ◌∷◌, map,
  Text, codes, text_ord, Ord, ◌=?◌, ◌<?◌, ◌<=?◌, nat_beq, is_nil, length, drop, drop_last, every,
  some_of, starts_with, ends_with, strip, split, if◌then◌else◌, ok, err,
}
use core_pip.Names.{canonicalize_name}
use core_pip.Version.{Version, key_ord}
use core_pip.Version.Build.{Groups, new_version}
use core_pip.Controls.{TextSet, has}

-- `depth` behind one more character. It stays above zero to the last parenthesis, since the
-- text starts with one.
abbrev pub next_depth : ℕ → ℕ → ℕ
next_depth depth c =
    if nat_beq c b'(' then depth + 1 else if nat_beq c b')' then depth - 1 else depth

-- The walk over the characters: `balanced and depth == 0` behind it
abbrev pub closes_last : ℕ → Text → Bool
closes_last depth [] = nat_beq depth 0
closes_last depth (c ∷ t) =
    let rest = closes_last (next_depth depth c) t in
    if nat_beq c b')' && nat_beq (next_depth depth c) 0 && not (is_nil t) then false else rest

-- One round of the loop; `none` leaves it.
abbrev pub inner : Text → Option Text
inner text =
    if starts_with (codes "(") text && ends_with (codes ")") text && closes_last 0 text
    then some (strip (drop_last (drop 1 text)))
    else none

-- The loop, for at most so many rounds.
unfoldable pub strip_grouping_loop : ℕ → Text → Text
strip_grouping_loop zero text = text
strip_grouping_loop (suc rounds) text = elim (inner text) [
  | none ↦ text
  | some t ↦ strip_grouping_loop rounds t
]

-- Each round makes the text shorter.
unfoldable pub strip_grouping_parentheses : Text → Text
unfolding strip_grouping_loop
strip_grouping_parentheses text = strip_grouping_loop (length text) text

-- "<", "<=", ">" and ">="
pub data OrderOp : Type 0 where
  below at_most above at_least : OrderOp

-- "==", "!=", "in", "not in", and the operators of order
pub data MarkerOp : Type 0 where
  same differs inside outside : MarkerOp
  ordered : OrderOp → MarkerOp

-- The groups of the pattern of a clause
pub record MarkerClause : Type 0 where
  pub key : Text
  pub op : MarkerOp
  pub expected : Text

abbrev pub compare_by : {A : Type 0} → ⦃o : Ord A⦄ → OrderOp → A → A → Bool
compare_by below left right = left <? right
compare_by at_most left right = left <=? right
compare_by above left right = right <? left
compare_by at_least left right = right <=? left

abbrev pub safe_extra : Text → Text
safe_extra = canonicalize_name

module _ (match : Text → Option Groups) where
  -- `Version(text)`, or `none` for the handler of `InvalidVersion`; the labels that the pattern
  -- reads are all in the table, so that no other exception is raised.
  abbrev pub parsed : Text → Option Version
  parsed t = elim (new_version match t) [ err e ↦ none | ok v ↦ some v ]

  abbrev pub compare_marker_values : Text → OrderOp → Text → Bool
  compare_marker_values actual op expected = elim (parsed actual) [
    | none ↦ compare_by op actual expected
    | some left ↦ elim (parsed expected) [
      | none ↦ compare_by op actual expected
      | some right ↦ compare_by op left.key right.key
    ]
  ]

  -- `extras`, or `{""}` if there is none
  abbrev pub given_extras : TextSet → TextSet
  given_extras [] = [] ∷ []
  given_extras (e ∷ extras) = e ∷ extras

  abbrev pub extra_values : Text → List Text
  extra_values expected = map (λ part. safe_extra (strip part)) (split b',' expected)

  -- The tests, for the extras and the expected text as they are normalized.
  abbrev pub extra_holds : MarkerOp → Text → TextSet → Bool
  extra_holds same expected extras = has expected extras
  extra_holds differs expected extras = not (has expected extras)
  extra_holds inside expected extras = some_of (λ e. has e (extra_values expected)) extras
  extra_holds outside expected extras = every (λ e. not (has e (extra_values expected))) extras
  extra_holds (ordered op) expected extras =
      some_of (λ e. compare_marker_values e op expected) extras

  abbrev pub extra_marker_clause_matches : MarkerOp → Text → TextSet → Bool
  extra_marker_clause_matches op expected extras =
      extra_holds op (safe_extra expected) (given_extras extras)

  -- The tests of a clause that names no extra.
  abbrev pub value_holds : MarkerOp → Text → Text → Bool
  value_holds same actual expected = actual =? expected
  value_holds differs actual expected = not (actual =? expected)
  value_holds inside actual expected = has actual (map strip (split b',' expected))
  value_holds outside actual expected = not (has actual (map strip (split b',' expected)))
  value_holds (ordered op) actual expected = compare_marker_values actual op expected

  -- `env` gives the empty text for a missing key.
  abbrev pub clause_holds : (Text → Text) → TextSet → MarkerClause → Bool
  clause_holds env extras c =
      if c.key =? codes "extra"
      then extra_marker_clause_matches c.op c.expected extras
      else value_holds c.op (env c.key) c.expected

  module _ (or_parts and_parts : Text → List Text) (read : Text → Option MarkerClause) where
    -- The loop over the clauses.
    abbrev pub clauses_hold : (Text → Text) → TextSet → List Text → Bool
    clauses_hold env extras [] = true
    clauses_hold env extras (c ∷ rest) =
        let later = clauses_hold env extras rest in
        elim (read (strip_grouping_parentheses (strip c))) [
          | none ↦ false
          | some m ↦ if clause_holds env extras m then later else false
        ]

    abbrev pub marker_and_clause_matches : Text → (Text → Text) → TextSet → Bool
    marker_and_clause_matches text env extras = clauses_hold env extras (and_parts text)

    unfoldable pub marker_applies_internal : Text → (Text → Text) → TextSet → Bool
    marker_applies_internal marker env extras =
        some_of (λ part. marker_and_clause_matches part env extras) (or_parts marker)

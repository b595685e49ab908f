-- ===== src/Specifier/Bounds/Defs.antt =====
-- `compatible_upper_bound_internal` and `_bounds_of` of src/cpip/core/packaging.py.
use core_pip.Prelude.{
  ℕ, ◌+◌, Bool, true, false, not, ◌&&◌, Option, none, some, List, [], ◌∷◌, ◌++◌, Text, nat_beq,
  ◌=?◌, ◌<?◌, Result, ok, err, if◌then◌else◌,
}
use core_pip.Version.{Version, key_ord}
use core_pip.Version.Decimal.{str_of, dotted}
use core_pip.Version.Build.{Groups, VersionError, new_version}
use core_pip.Specifier.Defs.{
  Operator, equal, at_least, at_most, greater, less, compatible, Specifier,
}

-- `release[-2] += 1; release = release[:-1]`, and `release[0] += 1` for one segment. No version
-- has an empty release.
abbrev pub bump : List ℕ → List ℕ
bump [] = []
bump (a ∷ []) = (a + 1) ∷ []
bump (a ∷ b ∷ []) = (a + 1) ∷ []
bump (a ∷ b ∷ c ∷ r) = a ∷ bump (b ∷ c ∷ r)

-- The text that is parsed for the bound.
abbrev pub bound_text : Version → Text
bound_text v =
    if nat_beq v.epoch 0
    then dotted (bump v.release)
    else str_of v.epoch ++ (b'!' ∷ dotted (bump v.release))

unfoldable pub compatible_upper_bound :
    (Text → Option Groups) → Version → Result VersionError Version
compatible_upper_bound match v = new_version match (bound_text v)

-- A bound, and whether it is inclusive.
abbrev pub Bound : Type 0
Bound = Option (Version × Bool)

abbrev pub gives_lower : Operator → Bool
gives_lower equal = true
gives_lower at_least = true
gives_lower greater = true
gives_lower compatible = true
gives_lower _ = false

abbrev pub gives_upper : Operator → Bool
gives_upper equal = true
gives_upper at_most = true
gives_upper less = true
gives_upper compatible = true
gives_upper _ = false

abbrev pub is_greater : Operator → Bool
is_greater greater = true
is_greater _ = false

abbrev pub is_equal_or_at_most : Operator → Bool
is_equal_or_at_most equal = true
is_equal_or_at_most at_most = true
is_equal_or_at_most _ = false

abbrev pub raise_lower : Bound → Version → Bool → Bound
raise_lower none p inclusive = some (p, inclusive)
raise_lower (some (b, i)) p inclusive =
    if b.key <? p.key
    then some (p, inclusive)
    else if p.key =? b.key
    then some (p, i && inclusive)
    else some (b, i)

abbrev pub cut_upper : Bound → Version → Bool → Bound
cut_upper none p inclusive = some (p, inclusive)
cut_upper (some (b, i)) p inclusive =
    if p.key <? b.key
    then some (p, inclusive)
    else if p.key =? b.key
    then some (p, i && inclusive)
    else some (b, i)

-- `compatible_upper_bound_internal(parsed) if operator == "~=" else parsed`
abbrev pub upper_version : (Text → Option Groups) → Operator → Version → Result VersionError Version
upper_version match compatible parsed = compatible_upper_bound match parsed
upper_version match _ parsed = ok parsed

-- One round of the loop over the clauses, with the parsed version at hand.
unfoldable pub add_bounds :
    (Text → Option Groups)
    → Operator
    → Version
    → Bound
    → Bound
    → Result VersionError (Bound × Bound)
add_bounds match op parsed lower upper =
    let lower' = if gives_lower op then raise_lower lower parsed (not (is_greater op)) else lower in
    if gives_upper op
    then elim (upper_version match op parsed) [
      | err e ↦ err e
      | ok bound ↦ ok (lower', cut_upper upper bound (is_equal_or_at_most op))
    ]
    else ok (lower', upper)

abbrev pub bounds_step :
    (Text → Option Groups) → Specifier → Bound → Bound → Result VersionError (Bound × Bound)
bounds_step match s lower upper = elim s.parsed_version [
  | none ↦ ok (lower, upper)
  | some parsed ↦
      if s.is_wildcard then ok (lower, upper) else add_bounds match s.operator parsed lower upper
]

-- The loop, from the bounds found so far.
unfoldable pub bounds_loop :
    (Text → Option Groups) → Bound → Bound → List Specifier → Result VersionError (Bound × Bound)
bounds_loop match lower upper [] = ok (lower, upper)
bounds_loop match lower upper (s ∷ rest) = elim (bounds_step match s lower upper) [
  | err e ↦ err e
  | ok (lower', upper') ↦ bounds_loop match lower' upper' rest
]

unfoldable pub bounds_of :
    (Text → Option Groups) → List Specifier → Result VersionError (Bound × Bound)
unfolding bounds_loop add_bounds compatible_upper_bound
bounds_of match specifiers = bounds_loop match none none specifiers

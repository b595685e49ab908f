-- ===== src/SpecifierSet/Defs.antt =====
-- The clauses of a set with its two tables of answers, what is derived from the clauses, and
-- `contains`.
use core_pip.Prelude.{
  ℕ, Bool, true, false, not, ◌&&◌, ◌||◌, Option, none, some, List, [], ◌∷◌, every, some_of, is_nil,
  if◌then◌else◌,
}
use core_pip.Version.{Key, Version, is_prerelease, key_ord}
use core_pip.Specifier.{
  Operator, arbitrary, equal, not_equal, at_least, at_most, greater, less, compatible, Specifier,
}
use core_pip.Specifier
use core_pip.Caches.{Table, lookup, bounded_put}

-- `_contains` and `_contains_with_prereleases`, empty before the first question.
pub record SpecifierSet : Type 0 where
  pub specifiers : List Specifier
  pub answers : Table Key Bool
  pub answers_with_prereleases : Table Key Bool

abbrev pub fresh : List Specifier → SpecifierSet
fresh l = record { specifiers = l; answers = []; answers_with_prereleases = [] }

-- `_CONTAINS_CACHE_SIZE`
abbrev pub contains_cache_size : ℕ
contains_cache_size = 4096

abbrev pub is_equal : Operator → Bool
is_equal equal = true
is_equal _ = false

abbrev pub is_not_equal : Operator → Bool
is_not_equal not_equal = true
is_not_equal _ = false

abbrev pub is_arbitrary : Operator → Bool
is_arbitrary arbitrary = true
is_arbitrary _ = false

-- The property `exact_version`
abbrev pub exact_version : List Specifier → Option Version
exact_version (s ∷ []) = if is_equal s.operator && not s.is_wildcard then s.parsed_version else none
exact_version _ = none

-- The property `is_pinned`
abbrev pub pins : Specifier → Bool
pins s = (is_equal s.operator || is_arbitrary s.operator) && not s.is_wildcard

abbrev pub is_pinned : List Specifier → Bool
is_pinned l = some_of pins l

-- The property `explicitly_allows_prereleases`
abbrev pub names_prerelease : Specifier → Bool
names_prerelease s = elim s.parsed_version [
  | none ↦ false
  | some o ↦ not (is_not_equal s.operator) && is_prerelease o
]

abbrev pub explicitly_allows_prereleases : List Specifier → Bool
explicitly_allows_prereleases l = some_of names_prerelease l

-- The answer as it is computed on a miss.
abbrev pub answer : List Specifier → Bool → Version → Bool
answer l allow v =
    if is_prerelease v && not allow && not (explicitly_allows_prereleases l)
    then false
    else every (λ s. Specifier.contains s v) l

-- The table that a question reads, and the set with that table replaced.
abbrev pub table_of : SpecifierSet → Bool → Table Key Bool
table_of s true = s.answers_with_prereleases
table_of s false = s.answers

abbrev pub with_table : SpecifierSet → Bool → Table Key Bool → SpecifierSet
with_table s true t = record s { answers_with_prereleases = t }
with_table s false t = record s { answers = t }

-- `contains`, with the set that it leaves
unfoldable pub contains : SpecifierSet → Version → Bool → Bool × SpecifierSet
contains s v allow =
    if is_nil s.specifiers && not (is_prerelease v)
    then (true, s)
    else elim (lookup v.key (table_of s allow)) [
      | some r ↦ (r, s)
      | none ↦
          let r = answer s.specifiers allow v in
          (r, with_table s allow (bounded_put contains_cache_size v.key r (table_of s allow)))
    ]

-- ===== src/Candidates/Applicable.antt =====
-- `get_applicable_candidates` of `CandidateEvaluator`.
pub mod Asked
pub mod Laws
pub mod Final
use core_pip.Prelude.{
  ℕ, ◌≡◌, ◌≢◌, ◌∙◌, sym, ap, refl, Bool, true, false, not, ◌&&◌, ◌||◌, Option, none, some, List, [],
  ◌∷◌, ◌++◌, Text, keep, every, some_of, is_nil, every-keep, if◌then◌else◌, Bool-cases, inl, inr,
  arith,
}
use core_pip.Caches.{Table}
use core_pip.Version.{Version, is_prerelease}
use core_pip.Specifier.{Specifier}
use core_pip.Specifier
use core_pip.SpecifierSet.{SpecifierSet, contains, explicitly_allows_prereleases}
use core_pip.Controls.{TextSet}
use core_pip.Controls.Release.{ReleaseControl, allows_prereleases}
use core_pip.Candidates.Models.{Candidate}
use core_pip.Candidates.Hashes.{
  filter_unallowed_hashes, filter_unallowed_hashes_lem, has_match, may_stay,
}

-- The fields of `CandidateEvaluator` that the choice and the ranking read; `hashes` are the digests
-- that are allowed. `specifier` holds the tables of answers, as they are when it is asked.
pub record CandidateEvaluator : Type 0 where
  pub project_name : Text
  pub specifier : SpecifierSet
  pub release_control : Option ReleaseControl
  pub hashes : Option TextSet
  pub supported_tag_ranks : Table Text ℕ
  pub prefer_binary : Bool

abbrev pub allow_prereleases_internal : CandidateEvaluator → Option Bool
allow_prereleases_internal e = elim e.release_control [
  | none ↦ none
  | some control ↦ allows_prereleases e.project_name control
]

-- What is put in front of the rest of a comprehension
abbrev pub put_if : Bool → Candidate → List Candidate × SpecifierSet → List Candidate × SpecifierSet
put_if b c (l, s) = (if b then c ∷ l else l, s)

-- `[c for c in candidates if first(c) and specifier.contains(c.version, ...)]`, with the set that
-- the questions leave
unfoldable pub keep_contained :
    (Candidate → Bool) → Bool → SpecifierSet → List Candidate → List Candidate × SpecifierSet
unfolding contains
keep_contained first allow s [] = ([], s)
keep_contained first allow s (c ∷ l) = elim (first c) [
  | false ↦ keep_contained first allow s l
  | true ↦
      put_if (contains s c.version allow).0 c
        (keep_contained first allow (contains s c.version allow).1 l)
]

-- The first tests of the three comprehensions
abbrev pub always : Candidate → Bool
always c = true

abbrev pub is_final : Candidate → Bool
is_final c = not (is_prerelease c.version)

abbrev pub may_ask : Bool → Candidate → Bool
may_ask allow c = not (is_prerelease c.version && not allow)

-- `stable` if it is not empty, and the comprehension of the fallback if it is
abbrev pub or_fallback :
    List Candidate × SpecifierSet → List Candidate → List Candidate × SpecifierSet
or_fallback (stable, s) candidates = elim (is_nil stable) [
  | false ↦ (stable, s)
  | true ↦ keep_contained always true s candidates
]

-- `applicable`
unfoldable pub applicable :
    SpecifierSet → Option Bool → List Candidate → List Candidate × SpecifierSet
unfolding keep_contained
applicable s none candidates = elim (explicitly_allows_prereleases s.specifiers) [
  | true ↦ keep_contained always true s candidates
  | false ↦ or_fallback (keep_contained is_final false s candidates) candidates
]
applicable s (some allow) candidates = keep_contained (may_ask allow) allow s candidates

-- The result, and the set with its tables as they are left
unfoldable pub get_applicable_candidates :
    CandidateEvaluator → List Candidate → List Candidate × SpecifierSet
unfolding applicable
get_applicable_candidates e candidates =
    let (l, s) = applicable e.specifier (allow_prereleases_internal e) candidates in
    (filter_unallowed_hashes e.hashes l, s)

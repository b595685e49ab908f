-- ===== src/Candidates/Applicable/Laws.antt =====
-- Which candidates are applicable: the clauses hold of them, and prereleases are the last resort.
use core_pip.Prelude.{
  ◌≡◌, ◌∙◌, ap, sym, refl, Bool, true, false, not, ◌&&◌, Option, none, some, List, [], ◌∷◌, keep,
  every, some_of, is_nil, every-keep, Bool-cases, inl, inr, arith,
}
use core_pip.Version.{Version}
use core_pip.Specifier.{Specifier}
use core_pip.Specifier
use core_pip.SpecifierSet.{
  SpecifierSet, answer, explicitly_allows_prereleases, HasNoArbitrary, IsAnswer, IsSound, answered,
}
use core_pip.Controls.{TextSet}
use core_pip.Candidates.Models.{Candidate}
use core_pip.Candidates.Hashes.{
  filter_unallowed_hashes, filter_unallowed_hashes_lem, has_match, may_stay,
}
use core_pip.Candidates.Applicable.{
  CandidateEvaluator, allow_prereleases_internal, keep_contained, always, is_final, may_ask,
  or_fallback, applicable, get_applicable_candidates,
}
use core_pip.Candidates.Applicable.Asked.{
  IsMade, AreVersions, Stays, keep_contained-Stays, keep_contained-every, keep_contained_lem,
}

-- The version of the candidate is in every clause.
abbrev pub satisfies : List Specifier → Candidate → Bool
satisfies l c = every (λ s. Specifier.contains s c.version) l

every_weaken :
    (p q : Candidate → Bool) (l : List Candidate)
    → ((c : Candidate) → p c ≡ true → q c ≡ true)
    → every p l ≡ true
    → every q l ≡ true
every_weaken p q [] weaker h = refl
every_weaken p q (c ∷ l) weaker h = ground (arith, weaker c, every_weaken p q l weaker)

every_of_keep :
    (p q : Candidate → Bool) (l : List Candidate)
    → ((c : Candidate) → p c ≡ true → q c ≡ true)
    → every q (keep p l) ≡ true
every_of_keep p q l weaker = every_weaken p q (keep p l) weaker (every-keep p l)

every_in_keep :
    (p q : Candidate → Bool) (l : List Candidate) → every q l ≡ true → every q (keep p l) ≡ true
every_in_keep p q [] h = refl
every_in_keep p q (c ∷ l) h = ground (arith, every_in_keep p q l)

pub keep_empty : (p : Candidate → Bool) (l : List Candidate) → is_nil (keep p l) ≡ not (some_of p l)
keep_empty p [] = refl
keep_empty p (c ∷ l) = ground (arith, keep_empty p l)

pub some_of_weaken :
    (p q : Candidate → Bool) (l : List Candidate)
    → ((c : Candidate) → p c ≡ true → q c ≡ true)
    → some_of p l ≡ true
    → some_of q l ≡ true
some_of_weaken p q [] weaker h = h
some_of_weaken p q (c ∷ l) weaker h = ground (arith, weaker c, some_of_weaken p q l weaker)

pub filter_every :
    (hashes : Option TextSet) (q : Candidate → Bool) (l : List Candidate)
    → every q l ≡ true
    → every q (filter_unallowed_hashes hashes l) ≡ true
filter_every none q l h = unfold filter_unallowed_hashes in h
filter_every (some allowed) q l h =
    rw (filter_unallowed_hashes_lem allowed l)
      (ground (arith, every_in_keep (may_stay allowed) q l))

match_may_stay :
    (allowed : TextSet) (c : Candidate) → has_match allowed c ≡ true → may_stay allowed c ≡ true
match_may_stay allowed c h = ground arith

some_given : (p : Candidate → Bool) (l : List Candidate) → some_of p l ≡ true → is_nil l ≡ false
some_given p [] h = cc
some_given p (c ∷ l) h = refl

filter_empty :
    (hashes : Option TextSet) (l : List Candidate)
    → is_nil (filter_unallowed_hashes hashes l) ≡ is_nil l
filter_empty none l = unfold filter_unallowed_hashes in refl
filter_empty (some allowed) l = rw (filter_unallowed_hashes_lem allowed l) (
    ground (
      arith,
      keep_empty (may_stay allowed) l,
      some_of_weaken (has_match allowed) (may_stay allowed) l (match_may_stay allowed),
      some_given (has_match allowed) l,
    ))

answer-satisfies :
    (l : List Specifier) (allow : Bool) (v : Version)
    → answer l allow v ≡ true
    → every (λ s. Specifier.contains s v) l ≡ true
answer-satisfies l allow v h = ground arith

-- The fallback, where there is nothing stable and where there is
pub or_fallback_some :
    (r : List Candidate × SpecifierSet) (l : List Candidate)
    → is_nil r.0 ≡ false
    → (or_fallback r l).0 ≡ r.0
or_fallback_some (stable, s) l h = rw (or_fallback, h) refl

or_fallback_none :
    (r : List Candidate × SpecifierSet) (l : List Candidate)
    → is_nil r.0 ≡ true
    → or_fallback r l ≡ keep_contained always true r.1 l
or_fallback_none (stable, s) l h = rw (or_fallback, h) refl

module _ (clauses : List Specifier) (s : SpecifierSet) (l : List Candidate) (made : AreVersions l)
    (stays : Stays clauses always true s) where
  -- The stable candidates, and the set behind them
  abbrev pub stable : List Candidate × SpecifierSet
  stable = keep_contained is_final false s l

  pub fallback_every :
      (q : Candidate → Bool)
      → every q stable.0 ≡ true
      → ((c : Candidate) → IsMade c.version → IsAnswer clauses true c.version.key true → q c ≡ true)
      → every q (or_fallback stable l).0 ≡ true
  fallback_every q first holds = elim (Bool-cases (is_nil stable.0)) [
    | inr e ↦ rw (or_fallback_some stable l e) first
    | inl e ↦ rw (or_fallback_none stable l e) (
        keep_contained-every clauses always true q stable.1 l (λ c good _ a. holds c good a) made
          (keep_contained-Stays clauses is_final false s l made stays))
  ]

  applicable-every :
      (q : Candidate → Bool) (allow : Option Bool)
      → ((flag : Bool) (c : Candidate)
          → IsMade c.version
          → IsAnswer clauses flag c.version.key true
          → q c ≡ true)
      → every q (applicable s allow l).0 ≡ true
  unfolding applicable
  applicable-every q (some allow) holds =
      keep_contained-every clauses (may_ask allow) allow q s l (λ c good _ a. holds allow c good a)
        made stays
  applicable-every q none holds = elim (Bool-cases (explicitly_allows_prereleases s.specifiers)) [
    | inl e ↦
        rw (applicable, e)
          (keep_contained-every clauses always true q s l (λ c good _ a. holds true c good a) made
            stays)
    | inr e ↦
        rw (applicable, e)
          (fallback_every q
            (keep_contained-every clauses is_final false q s l (λ c good _ a. holds false c good a)
              made stays)
            (holds true))
  ]

  applicable-satisfies :
      (allow : Option Bool)
      → HasNoArbitrary clauses
      → every (satisfies clauses) (applicable s allow l).0 ≡ true
  applicable-satisfies allow plain = applicable-every (satisfies clauses) allow (λ flag c good a.
      answer-satisfies clauses flag c.version
        (sym (answered clauses flag c.version true plain good.version a)))

  asks_satisfying :
      HasNoArbitrary clauses
      → some_of (satisfies clauses) l ≡ true
      → (s' : SpecifierSet) → Stays clauses always true s'
      → is_nil (keep_contained always true s' l).0 ≡ false
  asks_satisfying plain h s' stays' =
      let fits : Candidate → Bool = λ c. always c && answer clauses true c.version in
      ap is_nil (keep_contained_lem clauses always true s' l plain made stays')
      ∙ keep_empty fits l
      ∙ ap not (some_of_weaken (satisfies clauses) fits l (λ c k. ground arith) h)

  applicable_some :
      HasNoArbitrary clauses
      → some_of (satisfies clauses) l ≡ true
      → is_nil (applicable s none l).0 ≡ false
  unfolding applicable
  applicable_some plain h = elim (Bool-cases (explicitly_allows_prereleases s.specifiers)) [
    | inl e ↦ rw (applicable, e) (asks_satisfying plain h s stays)
    | inr e ↦ elim (Bool-cases (is_nil stable.0)) [
      | inr given ↦ rw (applicable, e, or_fallback_some stable l given) given
      | inl empty ↦
          rw (applicable, e, or_fallback_none stable l empty)
            (asks_satisfying plain h stable.1
              (keep_contained-Stays clauses is_final false s l made stays))
    ]
  ]

  pub applicable_refused : every is_final (applicable s (some false) l).0 ≡ true
  unfolding applicable
  applicable_refused =
      keep_contained-every clauses (may_ask false) false is_final s l
        (λ c good asked a. ground arith) made stays

-- A result, and the set behind it
pub get_applicable-list :
    (e : CandidateEvaluator) (l : List Candidate)
    → (get_applicable_candidates e l).0
      ≡ filter_unallowed_hashes e.hashes (applicable e.specifier (allow_prereleases_internal e) l).0
unfolding get_applicable_candidates
get_applicable-list e l = refl

-- The version of every applicable candidate is in every clause.
pub get_applicable_candidates_satisfy :
    (e : CandidateEvaluator) (l : List Candidate)
    → HasNoArbitrary e.specifier.specifiers
    → IsSound e.specifier
    → AreVersions l
    → every (satisfies e.specifier.specifiers) (get_applicable_candidates e l).0 ≡ true
get_applicable_candidates_satisfy e l plain sound made =
    let clauses = e.specifier.specifiers in
    rw (get_applicable-list e l) (
      filter_every e.hashes (satisfies clauses) _ (
        applicable-satisfies clauses e.specifier l made (sound, refl) (allow_prereleases_internal e)
          plain))

-- Where the release control leaves the question open and no clause is "===", some candidate is
-- applicable as soon as the version of one is in every clause, whatever questions the tables hold
-- the answers of; the digests never empty the choice. (All versions are made by `Version`.)
pub get_applicable_candidates_some :
    (e : CandidateEvaluator) (l : List Candidate)
    → allow_prereleases_internal e ≡ none
    → HasNoArbitrary e.specifier.specifiers
    → IsSound e.specifier
    → AreVersions l
    → some_of (satisfies e.specifier.specifiers) l ≡ true
    → is_nil (get_applicable_candidates e l).0 ≡ false
get_applicable_candidates_some e l open_question plain sound made h =
    rw (get_applicable-list e l, open_question)
      (filter_empty e.hashes (applicable e.specifier none l).0
        ∙ applicable_some e.specifier.specifiers e.specifier l made (sound, refl) plain h)

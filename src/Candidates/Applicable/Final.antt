-- ===== src/Candidates/Applicable/Final.antt =====
-- When prereleases stay out.
use core_pip.Prelude.{
  ◌≡◌, ◌∙◌, ap, sym, refl, ℕ, ◌<◌, Bool, true, false, not, ◌&&◌, Option, none, some, List, [], ◌∷◌,
  every, some_of, is_nil, Bool-cases, inl, inr, ◌⊎◌, arith,
}
use core_pip.Version.{Version, suffix_is_prerelease, is_prerelease}
use core_pip.Version.Marked.{is_marked, final-public}
use core_pip.Version.Build.{suffix_of}
use core_pip.Specifier.{Specifier}
use core_pip.Specifier
use core_pip.SpecifierSet.{
  SpecifierSet, answer, explicitly_allows_prereleases, HasNoArbitrary, HasOneSpelling, IsAnswer,
  IsSound, spelling_cases,
}
use core_pip.Candidates.Models.{Candidate}
use core_pip.Candidates.Applicable.{
  CandidateEvaluator, allow_prereleases_internal, always, is_final, applicable,
  get_applicable_candidates,
}
use core_pip.Candidates.Applicable.Asked.{
  HasSuffix, IsMade, AreVersions, Stays, keep_contained-every, keep_contained_lem,
}
use core_pip.Candidates.Applicable.Laws.{
  satisfies, some_of_weaken, keep_empty, filter_every, stable, fallback_every, or_fallback_some,
  applicable_refused, get_applicable-list,
}

marked_of :
    (pre : Option (ℕ × ℕ)) (post dev : Option ℕ)
    → ((r n : ℕ) → pre ≡ some (r, n) → r < 3)
    → suffix_is_prerelease (suffix_of pre post dev) ≡ true
    → is_marked (suffix_of pre post dev) ≡ true
unfolding suffix_of
marked_of none none none ranks h = cc
marked_of none none (some d) ranks h = refl
marked_of none (some p) none ranks h = cc
marked_of none (some p) (some d) ranks h = refl
marked_of (some (r, n)) post dev ranks h = ground (arith, ranks r n refl)

HasSuffix-marked : (v : Version) → HasSuffix v → is_prerelease v ≡ true → is_marked v.suffix ≡ true
unfolding is_prerelease
HasSuffix-marked v (pre, post, dev, ranks, same) h =
    ap is_marked same ∙ marked_of pre post dev ranks (ap suffix_is_prerelease (sym same) ∙ h)

answer-every :
    (l : List Specifier) (v : Version)
    → answer l true v ≡ true
    → every (λ s. Specifier.contains s v) l ≡ true
answer-every l v h = ground arith

some_candidate :
    (p : Candidate → Bool) (l : List Candidate)
    → some_of p l ≡ true
    → (c : Candidate) × (p c ≡ true)
some_candidate p [] h = cc
some_candidate p (c ∷ l) h = elim (Bool-cases (p c)) [
  | inl e ↦ (c, e)
  | inr e ↦ some_candidate p l (ground arith)
]

final_key : (v w : Version) → v.key ≡ w.key → is_prerelease v ≡ is_prerelease w
unfolding is_prerelease
final_key v w same = ap (λ k. suffix_is_prerelease k.suffix) same

module _ (clauses : List Specifier) (s : SpecifierSet) (l : List Candidate) (made : AreVersions l)
    (stays : Stays clauses always true s) where
  stable_final : every is_final (stable clauses s l made stays).0 ≡ true
  stable_final =
      keep_contained-every clauses is_final false is_final s l (λ c good first a. first) made stays

  -- With no "===", the final candidate is found.
  final_found :
      HasNoArbitrary clauses
      → some_of (λ c. is_final c && satisfies clauses c) l ≡ true
      → is_nil (stable clauses s l made stays).0 ≡ false
  final_found plain h =
      let fits : Candidate → Bool = λ c. is_final c && answer clauses false c.version in
      ap is_nil (keep_contained_lem clauses is_final false s l plain made stays)
      ∙ keep_empty fits l
      ∙ ap not
          (some_of_weaken (λ c. is_final c && satisfies clauses c) fits l (λ c k. ground arith) h)

  -- With one spelling, that of a final version, no prerelease passes.
  spelled_final :
      HasOneSpelling clauses
      → some_of (λ c. is_final c && satisfies clauses c) l ≡ true
      → (c : Candidate) → IsMade c.version
      → IsAnswer clauses true c.version.key true
      → is_final c ≡ true
  spelled_final one h c good a =
      let (d, found) = some_candidate (λ c. is_final c && satisfies clauses c) l h in
      let final : is_prerelease d.version ≡ false = ground (arith, found) in
      let spelling =
        one a.version d.version (answer-every clauses a.version (sym a.given))
          (ground (arith, found)) in
      let marked : is_prerelease a.version ≡ true → is_marked a.version.suffix ≡ true = λ pre.
        ap (λ k. is_marked k.suffix) a.same
        ∙ HasSuffix-marked c.version good.suffix
            (sym (final_key a.version c.version a.same) ∙ pre) in
      ap not (
        sym (final_key a.version c.version a.same)
        ∙ final-public a.version d.version marked spelling final)

  applicable_final :
      explicitly_allows_prereleases s.specifiers ≡ false
      → some_of (λ c. is_final c && satisfies clauses c) l ≡ true
      → every is_final (applicable s none l).0 ≡ true
  unfolding applicable
  applicable_final named h = elim (spelling_cases clauses) [
    | inl plain ↦
        rw
          (
            applicable,
            named,
            or_fallback_some (stable clauses s l made stays) l (final_found plain h),
          )
          stable_final
    | inr one ↦
        rw (applicable, named)
          (fallback_every clauses s l made stays is_final stable_final (spelled_final one h))
  ]

-- Where the release control leaves the question open and no clause names a prerelease, one final
-- candidate whose version is in every clause is enough for all applicable ones to be final, "===" or
-- not. Where the release control refuses prereleases, all applicable candidates are final in any
-- case. Whatever questions the tables hold the answers of; all versions are made by `Version`.
pub get_applicable_candidates_final :
    (e : CandidateEvaluator) (l : List Candidate)
    → IsSound e.specifier
    → AreVersions l
    → ((allow_prereleases_internal e ≡ some false)
        ⊎ ((allow_prereleases_internal e ≡ none)
            × (explicitly_allows_prereleases e.specifier.specifiers ≡ false)
            × (some_of (λ c. is_final c && satisfies e.specifier.specifiers c) l ≡ true)))
    → every is_final (get_applicable_candidates e l).0 ≡ true
get_applicable_candidates_final e l sound made (inl refused) =
    rw (get_applicable-list e l, refused)
      (filter_every e.hashes is_final (applicable e.specifier (some false) l).0
        (applicable_refused e.specifier.specifiers e.specifier l made (sound, refl)))
get_applicable_candidates_final e l sound made (inr (open_question, named, h)) =
    rw (get_applicable-list e l, open_question)
      (filter_every e.hashes is_final (applicable e.specifier none l).0
        (applicable_final e.specifier.specifiers e.specifier l made (sound, refl) named h))

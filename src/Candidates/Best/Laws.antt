-- ===== src/Candidates/Best/Laws.antt =====
-- The best candidate is the first of the greatest, and what that means for the choice.
use core_pip.Prelude.{
  ◌≡◌, ◌∙◌, ap, sym, refl, subst, ◌⊎◌, inl, inr, Bool, true, Option, none, some, List, [], ◌∷◌,
  ◌++◌, Text, every, ◌<?◌, ◌<=?◌, le_of_not_lt, lt_of_le_of_lt, lt→le, Result, Bool-cases, nat_ord,
  if◌then◌else◌, arith,
}
use core_pip.Prelude.Int.{int_ord}
use core_pip.Version.{Version, key_ord}
use core_pip.Version.Build.{VersionError}
use core_pip.SpecifierSet.{HasNoArbitrary, IsSound}
use core_pip.Candidates.Applicable.Asked.{AreVersions}
use core_pip.Candidates.Models.{Candidate}
use core_pip.Candidates.Applicable.{CandidateEvaluator, get_applicable_candidates}
use core_pip.Candidates.Applicable.Laws.{satisfies, get_applicable_candidates_satisfy}
use core_pip.Candidates.Best.{
  build_ord, sort_ord, sort_key, max_from, sort_best_candidate, compute_best_candidate,
}

module _ (version_of : Text → Result VersionError Version) (e : CandidateEvaluator) where
  -- `a` is worse than `b`, or not better.
  abbrev pub is_worse : Candidate → Candidate → Bool
  is_worse b a = sort_key version_of e a <? sort_key version_of e b

  abbrev pub is_no_better : Candidate → Candidate → Bool
  is_no_better b a = sort_key version_of e a <=? sort_key version_of e b

  -- `b` stands in the list, behind worse candidates and before others that are no better.
  abbrev pub IsFirstBest : List Candidate → Candidate → Type 0
  IsFirstBest l b =
      (before : List Candidate) × (after : List Candidate) × (l ≡ before ++ (b ∷ after))
      × (every (is_worse b) before ≡ true)
      × (every (is_no_better b) after ≡ true)

  -- What the loop makes of the best one so far
  abbrev Wins : Candidate → List Candidate → Candidate → Type 0
  Wins best rest b =
      ((b ≡ best) × (every (is_no_better b) rest ≡ true))
      ⊎ ((is_worse b best ≡ true) × IsFirstBest rest b)

  worse_of_worse :
      (a b c : Candidate) → is_worse b a ≡ true → is_worse c b ≡ true → is_worse c a ≡ true
  worse_of_worse a b c h k =
      let ka = sort_key version_of e a in
      let kb = sort_key version_of e b in
      let kc = sort_key version_of e c in lt_of_le_of_lt ka kb kc (lt→le ka kb h) k

  max_from-nil : (best : Candidate) → max_from version_of e best [] ≡ best
  unfolding max_from
  max_from-nil best = refl

  -- One round of the loop
  max_from-cons :
      (best c : Candidate) (rest : List Candidate)
      → max_from version_of e best (c ∷ rest)
        ≡ max_from version_of e (if is_worse c best then c else best) rest
  unfolding max_from
  max_from-cons best c rest = refl

  max_from-Wins :
      (best : Candidate) (rest : List Candidate) → Wins best rest (max_from version_of e best rest)
  max_from-Wins best [] = inl (max_from-nil best, refl)
  max_from-Wins best (c ∷ rest) = elim (Bool-cases (is_worse c best)) [
    | inl worse ↦
        subst (Wins best (c ∷ rest)) (sym (max_from-cons best c rest ∙ ap after (rw worse refl)))
          (over (max_from version_of e c rest) worse (max_from-Wins c rest))
    | inr better ↦
        subst (Wins best (c ∷ rest)) (sym (max_from-cons best c rest ∙ ap after (rw better refl))) (
          under (max_from version_of e best rest)
            (le_of_not_lt (sort_key version_of e c) (sort_key version_of e best) better)
            (max_from-Wins best rest))
  ]
    where
      after : Candidate → Candidate
      after b = max_from version_of e b rest

      over : (b : Candidate) → is_worse c best ≡ true → Wins c rest b → Wins best (c ∷ rest) b
      over b worse (inl (same, les)) =
          inr (rw same worse, ([], rest, ap (λ x. x ∷ rest) (sym same), refl, les))
      over b worse (inr (above, (before, after, parts, lts, les))) = inr (
        worse_of_worse best c b worse above,
        (c ∷ before, after, ap (λ l. c ∷ l) parts, ground (arith, above, lts), les),
      )

      under :
          (b : Candidate) → is_no_better best c ≡ true → Wins best rest b → Wins best (c ∷ rest) b
      under b less (inl (same, les)) =
          let here : is_no_better b c ≡ true = rw same less in inl (same, ground (arith, here, les))
      under b less (inr (above, (before, after, parts, lts, les))) =
          let here : is_worse b c ≡ true =
            lt_of_le_of_lt (sort_key version_of e c) (sort_key version_of e best)
              (sort_key version_of e b) less above in
          inr (above, (c ∷ before, after, ap (λ l. c ∷ l) parts, ground (arith, here, lts), les))

  -- What is said of the best candidate of a list
  abbrev pub IsBestOf : List Candidate → Option Candidate → Type 0
  IsBestOf l none = l ≡ []
  IsBestOf l (some b) = IsFirstBest l b

  pub sort_best_candidate_lem :
      (l : List Candidate) → IsBestOf l (sort_best_candidate version_of e l)
  unfolding sort_best_candidate
  sort_best_candidate_lem [] = refl
  sort_best_candidate_lem (c ∷ rest) = first (max_from version_of e c rest) (max_from-Wins c rest)
    where
      first : (b : Candidate) → Wins c rest b → IsFirstBest (c ∷ rest) b
      first b (inl (same, les)) = ([], rest, ap (λ x. x ∷ rest) (sym same), refl, les)
      first b (inr (above, (before, after, parts, lts, les))) =
          (c ∷ before, after, ap (λ l. c ∷ l) parts, ground (arith, above, lts), les)

  every-middle :
      (p : Candidate → Bool) (before after : List Candidate) (b : Candidate)
      → every p (before ++ (b ∷ after)) ≡ true
      → p b ≡ true
  every-middle p [] after b h = ground (arith, h)
  every-middle p (c ∷ before) after b h = every-middle p before after b (ground (arith, h))

  -- What `compute_best_candidate` promises of its result
  abbrev pub IsBestResult : List Candidate → List Candidate × Option Candidate → Type 0
  IsBestResult candidates (applicable, none) =
      (applicable ≡ (get_applicable_candidates e candidates).0) × (applicable ≡ [])
  IsBestResult candidates (applicable, some b) =
      (applicable ≡ (get_applicable_candidates e candidates).0)
      × IsFirstBest applicable b
      × (satisfies e.specifier.specifiers b ≡ true)

  -- If no clause is "===", there is a best candidate exactly if some candidate is applicable. It is
  -- one of these, its version is in every clause, whatever questions the tables hold the answers
  -- of, and it is the first of the greatest: those before it in the list are worse, and those behind
  -- it are no better. (All versions are made by `Version`.)
  pub compute_best_candidate_lem :
      (candidates : List Candidate)
      → HasNoArbitrary e.specifier.specifiers
      → IsSound e.specifier
      → AreVersions candidates
      → IsBestResult candidates (compute_best_candidate version_of e candidates).0
  unfolding compute_best_candidate
  compute_best_candidate_lem candidates plain sound made =
      best (sort_best_candidate version_of e found) (sort_best_candidate_lem found)
    where
      found : List Candidate
      found = (get_applicable_candidates e candidates).0

      best : (o : Option Candidate) → IsBestOf found o → IsBestResult candidates (found, o)
      best none empty = (refl, empty)
      best (some b) (before, after, parts, lts, les) = (
        refl,
        (before, after, parts, lts, les),
        every-middle (satisfies e.specifier.specifiers) before after b (
            subst (λ (l : List Candidate). every (satisfies e.specifier.specifiers) l ≡ true) parts
              (get_applicable_candidates_satisfy e candidates plain sound made)),
      )

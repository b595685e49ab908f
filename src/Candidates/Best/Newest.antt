-- ===== src/Candidates/Best/Newest.antt =====
-- What the best candidate is to the others: digests, yanked links and versions.
use core_pip.Prelude.{
  ℕ, ◌≡◌, sym, refl, subst, Bool, true, false, not, ◌&&◌, ◌||◌, Option, none, some, List, [], ◌∷◌,
  ◌++◌, Text, every, ◌<?◌, ◌<=?◌, le_of_eq, lt→le, Result, ◌=?◌, Ord, nat_ord, pair_ord,
  if◌then◌else◌, arith,
}
use core_pip.Prelude.Int.{ℤ, pos, negsuc, int_ord}
use core_pip.Version.{Version, Key, key_ord}
use core_pip.Version.Build.{VersionError}
use core_pip.Candidates.Models.{Candidate, is_yanked}
use core_pip.Candidates.Applicable.{CandidateEvaluator}
use core_pip.Candidates.Best.{
  hash_rank, BuildTag, build_ord, sort_ord, sort_key, sort_best_candidate,
}
use core_pip.Candidates.Best.Laws.{is_worse, is_no_better, IsBestOf, sort_best_candidate_lem}

-- What the order of a tuple says of its first three fields
first_fields :
    (A B C D : Type 0) (o : Ord A) (p : Ord B) (q : Ord C) (r : Ord D) (a a' : A) (b b' : B)
    (c c' : C) (d d' : D)
    → ◌<=?◌ {A = A × (B × (C × D))} ⦃o = pair_ord o (pair_ord p (pair_ord q r))⦄
        (a, (b, (c, d)))
        (a', (b', (c', d')))
      ≡ true
    → (◌<?◌ ⦃o = o⦄ a a'
        || ◌=?◌ ⦃o = o⦄ a a' && (◌<?◌ ⦃o = p⦄ b b' || ◌=?◌ ⦃o = p⦄ b b' && ◌<=?◌ ⦃o = q⦄ c c'))
      ≡ true
first_fields A B C D o p q r a a' b b' c c' d d' h = ground (arith, h)

module _ (version_of : Text → Result VersionError Version) (e : CandidateEvaluator) where
  -- `a` has no allowed digest and `b` has one; or they agree in that, and `a` is yanked and `b` is
  -- not; or they agree in that too, and the version of `a` is at most that of `b`.
  abbrev pub is_outranked : Candidate → Candidate → Bool
  is_outranked b a =
      hash_rank e.hashes a <? hash_rank e.hashes b
      || hash_rank e.hashes a =? hash_rank e.hashes b
        && (is_yanked a.link && not (is_yanked b.link)
            || not (
                is_yanked a.link && not (is_yanked b.link)
                || is_yanked b.link && not (is_yanked a.link))
              && a.version.key <=? b.version.key)

  yanked_cases :
      (x y le : Bool)
      → ((if x then negsuc 0 else pos 0) <? (if y then negsuc 0 else pos 0)
          || (if x then negsuc 0 else pos 0) =? (if y then negsuc 0 else pos 0) && le)
        ≡ (x && not y || not (x && not y || y && not x) && le)
  yanked_cases true true le = refl
  yanked_cases true false le = refl
  yanked_cases false true le = refl
  yanked_cases false false le = refl

  outranked_lem : (a b : Candidate) → is_no_better version_of e b a ≡ true → is_outranked b a ≡ true
  unfolding sort_key sort_ord
  outranked_lem a b h =
      let ka = sort_key version_of e a in
      let kb = sort_key version_of e b in
      let ranked =
        first_fields ℕ ℤ Key (ℕ × (ℕ × (ℕ × (ℤ × BuildTag)))) nat_ord int_ord key_ord
          (pair_ord nat_ord (pair_ord nat_ord (pair_ord nat_ord (pair_ord int_ord build_ord)))) ka.0
          kb.0 ka.1.0 kb.1.0 ka.1.1.0 kb.1.1.0 ka.1.1.1 kb.1.1.1 h in
      subst
        (λ (t : Bool).
          (hash_rank e.hashes a <? hash_rank e.hashes b
            || hash_rank e.hashes a =? hash_rank e.hashes b && t)
          ≡ true)
        (yanked_cases (is_yanked a.link) (is_yanked b.link) (a.version.key <=? b.version.key))
        ranked

  every-imp :
      (p r : Candidate → Bool) (l : List Candidate)
      → ((c : Candidate) → p c ≡ true → r c ≡ true)
      → every p l ≡ true
      → every r l ≡ true
  every-imp p r [] imp h = refl
  every-imp p r (c ∷ l) imp h = ground (arith, imp c, every-imp p r l imp, h)

  every-first :
      (b : Candidate) (before after : List Candidate)
      → every (is_worse version_of e b) before ≡ true
      → every (is_no_better version_of e b) after ≡ true
      → every (is_no_better version_of e b) (before ++ (b ∷ after)) ≡ true
  every-first b [] after h k =
      let kb = sort_key version_of e b in
      let self : is_no_better version_of e b b ≡ true = le_of_eq kb kb refl in
      ground (arith, self, k)
  every-first b (c ∷ before) after h k =
      let first : is_worse version_of e b c ≡ true = ground (arith, h) in
      let less : is_no_better version_of e b c ≡ true =
        lt→le (sort_key version_of e c) (sort_key version_of e b) first in
      ground (arith, less, every-first b before after (ground (arith, h)) k)

  -- What the best candidate of a list is to the others of it
  abbrev pub Outranks : List Candidate → Option Candidate → Type 0
  Outranks l none = l ≡ []
  Outranks l (some b) = every (is_outranked b) l ≡ true

  -- Every candidate of a list is outranked by the best one, where there is one, and the list is empty
  -- where there is none: if one has an allowed digest, so has the best; if one of those with the
  -- digest of the best is not yanked, the best is not yanked; and among those that agree with the
  -- best in both, none has a greater version, whatever wheels, builds and tags there are.
  pub sort_best_candidate-Outranks :
      (l : List Candidate) → Outranks l (sort_best_candidate version_of e l)
  sort_best_candidate-Outranks l =
      outranks (sort_best_candidate version_of e l) (sort_best_candidate_lem version_of e l)
    where
      outranks : (o : Option Candidate) → IsBestOf version_of e l o → Outranks l o
      outranks none empty = empty
      outranks (some b) (before, after, parts, lts, les) =
          every-imp (is_no_better version_of e b) (is_outranked b) l (λ c. outranked_lem c b)
            (subst (λ (x : List Candidate). every (is_no_better version_of e b) x ≡ true)
              (sym parts) (every-first b before after lts les))

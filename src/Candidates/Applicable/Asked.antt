-- ===== src/Candidates/Applicable/Asked.antt =====
-- A comprehension that asks a set of clauses, with the tables of the set.
use core_pip.Prelude.{
  ◌≡◌, ◌∙◌, if◌then◌else◌, ap₂, ap, sym, subst, refl, ℕ, ◌<◌, Bool, true, false, ◌&&◌, Option, some,
  List, [], ◌∷◌, keep, every, Bool-cases, inl, inr, arith,
}
use core_pip.Version.{Version}
use core_pip.Version.Build.{suffix_of}
use core_pip.Specifier.{Specifier}
use core_pip.Specifier.Keys.{IsVersion}
use core_pip.SpecifierSet.{
  SpecifierSet, contains, answer, HasNoArbitrary, IsAnswer, IsSound, contains-IsAnswer, answered,
}
use core_pip.Candidates.Models.{Candidate}
use core_pip.Candidates.Applicable.{put_if, keep_contained}

-- The suffix of the version is one that `Version` makes.
abbrev pub HasSuffix : Version → Type 0
HasSuffix v =
    (pre : Option (ℕ × ℕ)) × (post : Option ℕ) × (dev : Option ℕ) × ((r n : ℕ)
      → pre ≡ some (r, n)
      → r < 3)
    × (v.suffix ≡ suffix_of pre post dev)

-- What holds of every version that `Version` makes
pub record IsMade (v : Version) : Type 0 where
  pub version : IsVersion v
  pub suffix : HasSuffix v

-- The versions are made by `Version`.
abbrev pub AreVersions : List Candidate → Type 0
AreVersions [] = Unit {0}
AreVersions (c ∷ l) = IsMade c.version × AreVersions l

every-put_if :
    (q : Candidate → Bool) (b : Bool) (c : Candidate) (r : List Candidate × SpecifierSet)
    → (b ≡ true → q c ≡ true)
    → every q r.0 ≡ true
    → every q (put_if b c r).0 ≡ true
every-put_if q true c (l, s) h k = ground (arith, h refl)
every-put_if q false c (l, s) h k = k

put_if-list :
    (b : Bool) (c : Candidate) (r : List Candidate × SpecifierSet)
    → (put_if b c r).0 ≡ (if b then c ∷ r.0 else r.0)
put_if-list b c (l, s) = refl

put_if-set : (b : Bool) (c : Candidate) (r : List Candidate × SpecifierSet) → (put_if b c r).1 ≡ r.1
put_if-set b c (l, s) = refl

-- A comprehension over a set with the clauses `clauses`
module _ (clauses : List Specifier) (first : Candidate → Bool) (allow : Bool) where
  -- The rest of the comprehension behind a question
  abbrev tail : SpecifierSet → Candidate → List Candidate → List Candidate × SpecifierSet
  tail s c l = keep_contained first allow (contains s c.version allow).1 l

  skipped :
      (s : SpecifierSet) (c : Candidate) (l : List Candidate)
      → first c ≡ false
      → keep_contained first allow s (c ∷ l) ≡ keep_contained first allow s l
  unfolding keep_contained
  skipped s c l e = rw (keep_contained, e) refl

  taken :
      (s : SpecifierSet) (c : Candidate) (l : List Candidate)
      → first c ≡ true
      → keep_contained first allow s (c ∷ l)
        ≡ put_if
            (contains s c.version allow).0
            c
            (keep_contained first allow (contains s c.version allow).1 l)
  unfolding keep_contained
  taken s c l e = rw (keep_contained, e) refl

  -- The set stays sound.
  abbrev pub Stays : SpecifierSet → Type 0
  Stays s = IsSound s × (s.specifiers ≡ clauses)

  asked-Stays :
      (s : SpecifierSet) (c : Candidate)
      → IsMade c.version
      → Stays s
      → Stays (contains s c.version allow).1
  asked-Stays s c good (sound, same) =
      let (a, sound', same') = contains-IsAnswer s c.version allow good.version sound in
      (sound', same' ∙ same)

  asked-IsAnswer :
      (s : SpecifierSet) (c : Candidate)
      → IsMade c.version
      → Stays s
      → IsAnswer clauses allow c.version.key (contains s c.version allow).0
  asked-IsAnswer s c good (sound, same) =
      subst (λ l. IsAnswer l allow c.version.key (contains s c.version allow).0) same
        (contains-IsAnswer s c.version allow good.version sound).0

  pub keep_contained-Stays :
      (s : SpecifierSet) (l : List Candidate)
      → AreVersions l
      → Stays s
      → Stays (keep_contained first allow s l).1
  unfolding keep_contained
  keep_contained-Stays s [] made h = h
  keep_contained-Stays s (c ∷ l) (good, made) h = elim (Bool-cases (first c)) [
    | inr e ↦ rw (skipped s c l e) (keep_contained-Stays s l made h)
    | inl e ↦
        subst Stays
          (sym (
            ap (λ r. r.1) (taken s c l e)
            ∙ put_if-set (contains s c.version allow).0 c (tail s c l)))
          (keep_contained-Stays (contains s c.version allow).1 l made (asked-Stays s c good h))
  ]

  -- What holds of each candidate that passes the first test, if a version of its key is contained
  pub keep_contained-every :
      (q : Candidate → Bool) (s : SpecifierSet) (l : List Candidate)
      → ((c : Candidate)
          → IsMade c.version
          → first c ≡ true
          → IsAnswer clauses allow c.version.key true
          → q c ≡ true)
      → AreVersions l
      → Stays s
      → every q (keep_contained first allow s l).0 ≡ true
  unfolding keep_contained
  keep_contained-every q s [] holds made h = refl
  keep_contained-every q s (c ∷ l) holds (good, made) h = elim (Bool-cases (first c)) [
    | inr e ↦ rw (skipped s c l e) (keep_contained-every q s l holds made h)
    | inl e ↦ rw (taken s c l e) (
        every-put_if q (contains s c.version allow).0 c (tail s c l)
          (λ yes.
            holds c good e
              (subst (IsAnswer clauses allow c.version.key) yes (asked-IsAnswer s c good h)))
          (keep_contained-every q (contains s c.version allow).1 l holds made
            (asked-Stays s c good h)))
  ]

  -- With no "===" the tables do not show.
  pub keep_contained_lem :
      (s : SpecifierSet) (l : List Candidate)
      → HasNoArbitrary clauses
      → AreVersions l
      → Stays s
      → (keep_contained first allow s l).0 ≡ keep (λ c. first c && answer clauses allow c.version) l
  unfolding keep_contained
  keep_contained_lem s [] plain made h = refl
  keep_contained_lem s (c ∷ l) plain (good, made) h = elim (Bool-cases (first c)) [
    | inr e ↦ rw (skipped s c l e, e) (keep_contained_lem s l plain made h)
    | inl e ↦
        let r =
          answered clauses allow c.version (contains s c.version allow).0 plain good.version
            (asked-IsAnswer s c good h) in
        let rest =
          keep_contained_lem (contains s c.version allow).1 l plain made (asked-Stays s c good h) in
        let fits : Candidate → Bool = λ d. first d && answer clauses allow d.version in
        let here : fits c ≡ (contains s c.version allow).0 =
          ap (λ b. b && answer clauses allow c.version) e ∙ sym r in
        ap (λ x. x.0) (taken s c l e)
        ∙ put_if-list (contains s c.version allow).0 c (tail s c l)
        ∙ ap₂ (λ b x. if b then c ∷ x else x) (sym here) rest
  ]

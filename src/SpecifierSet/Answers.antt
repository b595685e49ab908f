-- ===== src/SpecifierSet/Answers.antt =====
-- The tables of answers do not show, as long as no clause is "===".
use core_pip.Prelude.{
  some_inj, ◌≤◌, ◌≡◌, ◌∙◌, ap, ap₂, sym, refl, Bool, true, false, not, ◌&&◌, some, List, [], ◌∷◌,
  map, length, every, is_nil, =?_iff, ◌=?◌, Option-cases, Bool-cases, inl, inr, arith,
}
use core_pip.Version.{Key, Version, is_prerelease, key_ord}
use core_pip.Specifier.{Specifier, Operator, arbitrary}
use core_pip.Specifier
use core_pip.Specifier.Keys.{IsVersion, contains_op_congr}
use core_pip.Caches.{Table, lookup, bounded_put, length-bounded_put, lookup-bounded_put}
use core_pip.SpecifierSet.Defs.{
  SpecifierSet, contains_cache_size, answer, table_of, with_table, contains, fresh,
}

-- Every clause has a parsed version; "===" is the clause that has none.
abbrev pub HasNoArbitrary : List Specifier → Type 0
HasNoArbitrary [] = Unit {0}
HasNoArbitrary (s ∷ l) = (o : Version) × (s.parsed_version ≡ some o) × HasNoArbitrary l

module _ (v w : Version) (good_v : IsVersion v) (good_w : IsVersion w) (same : v.key ≡ w.key) where
  contains_congr :
      (s : Specifier) (o : Version)
      → s.parsed_version ≡ some o
      → Specifier.contains s v ≡ Specifier.contains s w
  unfolding Specifier.contains
  contains_congr s o parsed =
      rw parsed (contains_op_congr v w good_v good_w same s.operator s.is_wildcard o)

  every_congr :
      (l : List Specifier)
      → HasNoArbitrary l
      → every (λ s. Specifier.contains s v) l ≡ every (λ s. Specifier.contains s w) l
  every_congr [] h = refl
  every_congr (s ∷ l) (o, parsed, h) = ap₂ ◌&&◌ (contains_congr s o parsed) (every_congr l h)

  pub answer_congr :
      (l : List Specifier) (allow : Bool) → HasNoArbitrary l → answer l allow v ≡ answer l allow w
  unfolding is_prerelease
  answer_congr l allow h = rw (every_congr l h, same)

-- A table is within its limit, and holds for a key the answer for each version that has it.
pub record IsTable (l : List Specifier) (allow : Bool) (t : Table Key Bool) : Type 0 where
  pub bounded : length t ≤ contains_cache_size
  pub right :
      (v : Version) (r : Bool) → IsVersion v → lookup v.key t ≡ some r → r ≡ answer l allow v

pub record IsFaithful (s : SpecifierSet) : Type 0 where
  pub final_only : IsTable s.specifiers false s.answers
  pub all : IsTable s.specifiers true s.answers_with_prereleases

table_of-IsTable :
    (s : SpecifierSet) (allow : Bool) → IsFaithful s → IsTable s.specifiers allow (table_of s allow)
table_of-IsTable s true f = f.all
table_of-IsTable s false f = f.final_only

with_table-IsFaithful :
    (s : SpecifierSet) (allow : Bool) (t : Table Key Bool)
    → IsFaithful s
    → IsTable s.specifiers allow t
    → IsFaithful (with_table s allow t)
with_table-IsFaithful s true t f new = record { final_only = f.final_only; all = new }
with_table-IsFaithful s false t f new = record { final_only = new; all = f.all }

put-IsTable :
    (l : List Specifier) (allow : Bool) (v : Version) (t : Table Key Bool)
    → HasNoArbitrary l
    → IsVersion v
    → IsTable l allow t
    → IsTable l allow (bounded_put contains_cache_size v.key (answer l allow v) t)
put-IsTable l allow v t plain good i = record {
  bounded =
      length-bounded_put contains_cache_size v.key (answer l allow v) t (omega arith) i.bounded;
  right = λ w r good_w found. elim (Bool-cases (w.key =? v.key)) [
    | inl same ↦
        let held =
          lookup-bounded_put contains_cache_size v.key w.key (answer l allow v) r t found in
        some_inj (sym (rw same at held))
        ∙ answer_congr v w good good_w (sym ((=?_iff w.key v.key).0 same)) l allow plain
    | inr other ↦
        let held =
          lookup-bounded_put contains_cache_size v.key w.key (answer l allow v) r t found in
        i.right w r good_w (rw other at held)
  ];
}

pub specifiers-with_table :
    (s : SpecifierSet) (a : Bool) (t : Table Key Bool)
    → (with_table s a t).specifiers ≡ s.specifiers
specifiers-with_table s true t = refl
specifiers-with_table s false t = refl

pub trivial_answer :
    (l : List Specifier) (v : Version) (allow : Bool)
    → (is_nil l && not (is_prerelease v)) ≡ true
    → true ≡ answer l allow v
trivial_answer [] v allow h = ground arith
trivial_answer (s ∷ l) v allow h = cc

-- With no "===" among the clauses, a question gets the answer that the clauses give, and leaves
-- tables that hold such answers alone.
pub contains_lem :
    (s : SpecifierSet) (v : Version) (allow : Bool)
    → HasNoArbitrary s.specifiers
    → IsVersion v
    → IsFaithful s
    → ((contains s v allow).0 ≡ answer s.specifiers allow v)
      × IsFaithful (contains s v allow).1
      × ((contains s v allow).1.specifiers ≡ s.specifiers)
contains_lem s v allow plain good f =
    elim (Bool-cases (is_nil s.specifiers && not (is_prerelease v))) [
      | inl trivial ↦
          unfold contains in rw trivial (trivial_answer s.specifiers v allow trivial, f, refl)
      | inr asked ↦ elim (Option-cases (lookup v.key (table_of s allow))) [
        | inl missed ↦
            unfold contains in
            rw (asked, missed)
              (
                refl,
                with_table-IsFaithful s allow _ f (
                    put-IsTable s.specifiers allow v (table_of s allow) plain good
                      (table_of-IsTable s allow f)),
                specifiers-with_table s allow _,
              )
        | inr (r, found) ↦
            unfold contains in
            rw (asked, found) ((table_of-IsTable s allow f).right v r good found, f, refl)
      ]
    ]

-- Questions in a row.
abbrev pub contains_all : SpecifierSet → List (Version × Bool) → List Bool × SpecifierSet
contains_all s [] = ([], s)
contains_all s ((v, allow) ∷ rest) =
    let (r, s') = contains s v allow in let (rs, s'') = contains_all s' rest in (r ∷ rs, s'')

abbrev pub AreMade : List (Version × Bool) → Type 0
AreMade [] = Unit {0}
AreMade ((v, allow) ∷ rest) = IsVersion v × AreMade rest

contains_all_from :
    (s : SpecifierSet) (l : List Specifier) (questions : List (Version × Bool))
    → s.specifiers ≡ l
    → HasNoArbitrary l
    → AreMade questions
    → IsFaithful s
    → (contains_all s questions).0 ≡ map (λ (v, allow). answer l allow v) questions
contains_all_from s l [] e plain made f = refl
contains_all_from s l ((v, allow) ∷ rest) e plain (good, made) f =
    let (now, kept, same) = contains_lem s v allow (rw e plain) good f in
    let later = contains_all_from (contains s v allow).1 l rest (same ∙ e) plain made kept in
    ap₂ ◌∷◌ (now ∙ ap (λ k. answer k allow v) e) later

fresh-IsFaithful : (l : List Specifier) → IsFaithful (fresh l)
unfolding lookup
fresh-IsFaithful l = record {
  final_only = record { bounded = omega arith; right = λ v r good found. cc };
  all = record { bounded = omega arith; right = λ v r good found. cc };
}

-- With no "===" among the clauses of a set, every question of a sequence, with prereleases allowed
-- or not, gets the answer that the clauses give for its version, whatever was asked before and
-- although versions of one key share an entry.
pub contains_all_lem :
    (l : List Specifier) (questions : List (Version × Bool))
    → HasNoArbitrary l
    → AreMade questions
    → (contains_all (fresh l) questions).0 ≡ map (λ (v, allow). answer l allow v) questions
contains_all_lem l questions plain made =
    contains_all_from (fresh l) l questions refl plain made (fresh-IsFaithful l)

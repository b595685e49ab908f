-- ===== src/SpecifierSet/Sound.antt =====
-- What the tables of answers hold, whatever the clauses: answers for versions of the same key.
use core_pip.Prelude.{
  ◌≡◌, ◌∙◌, sym, refl, Bool, true, false, not, ◌&&◌, some, some_inj, List, [], ◌∷◌, every, is_nil,
  =?_iff, ◌=?◌, Option-cases, Bool-cases, inl, inr, ◌⊎◌, text_ord, arith,
}
use core_pip.Version.{Key, Version, is_prerelease, key_ord, public}
use core_pip.Specifier.{Specifier}
use core_pip.Specifier
use core_pip.Specifier.Keys.{IsVersion}
use core_pip.Caches.{Table, lookup, bounded_put, lookup-bounded_put}
use core_pip.SpecifierSet.Defs.{
  SpecifierSet, contains_cache_size, answer, table_of, with_table, contains, fresh,
}
use core_pip.SpecifierSet.Answers.{
  HasNoArbitrary, answer_congr, specifiers-with_table, trivial_answer,
}

-- The answer that the clauses give for some version of the key
pub record IsAnswer (l : List Specifier) (allow : Bool) (k : Key) (r : Bool) : Type 0 where
  pub version : Version
  pub made : IsVersion version
  pub same : version.key ≡ k
  pub given : r ≡ answer l allow version

abbrev pub HoldsAnswers : List Specifier → Bool → Table Key Bool → Type 0
HoldsAnswers l allow t = (k : Key) (r : Bool) → lookup k t ≡ some r → IsAnswer l allow k r

-- Every entry of the tables was computed for a version of its key.
pub record IsSound (s : SpecifierSet) : Type 0 where
  pub final_only : HoldsAnswers s.specifiers false s.answers
  pub all : HoldsAnswers s.specifiers true s.answers_with_prereleases

table_of_sound :
    (s : SpecifierSet) (allow : Bool)
    → IsSound s
    → HoldsAnswers s.specifiers allow (table_of s allow)
table_of_sound s true f = f.all
table_of_sound s false f = f.final_only

with_table-IsSound :
    (s : SpecifierSet) (allow : Bool) (t : Table Key Bool)
    → IsSound s
    → HoldsAnswers s.specifiers allow t
    → IsSound (with_table s allow t)
with_table-IsSound s true t f new = record { final_only = f.final_only; all = new }
with_table-IsSound s false t f new = record { final_only = new; all = f.all }

put_sound :
    (l : List Specifier) (allow : Bool) (v : Version) (t : Table Key Bool)
    → IsVersion v
    → HoldsAnswers l allow t
    → HoldsAnswers l allow (bounded_put contains_cache_size v.key (answer l allow v) t)
put_sound l allow v t good i k r found =
    let held = lookup-bounded_put contains_cache_size v.key k (answer l allow v) r t found in
    elim (Bool-cases (k =? v.key)) [
      | inl e ↦ record {
        version = v;
        made = good;
        same = sym ((=?_iff k v.key).0 e);
        given = some_inj (sym (rw e at held));
      }
      | inr e ↦ i k r (rw e at held)
    ]

-- Whatever the clauses, a question is answered for some version of the key, and the tables stay so.
pub contains-IsAnswer :
    (s : SpecifierSet) (v : Version) (allow : Bool)
    → IsVersion v
    → IsSound s
    → IsAnswer s.specifiers allow v.key (contains s v allow).0
      × IsSound (contains s v allow).1
      × ((contains s v allow).1.specifiers ≡ s.specifiers)
contains-IsAnswer s v allow good f =
    elim (Bool-cases (is_nil s.specifiers && not (is_prerelease v))) [
      | inl trivial ↦
          unfold contains in
          rw trivial (own true (trivial_answer s.specifiers v allow trivial), f, refl)
      | inr asked ↦ elim (Option-cases (lookup v.key (table_of s allow))) [
        | inl missed ↦
            unfold contains in
            rw (asked, missed)
              (
                own (answer s.specifiers allow v) refl,
                with_table-IsSound s allow _ f (
                    put_sound s.specifiers allow v (table_of s allow) good
                      (table_of_sound s allow f)),
                specifiers-with_table s allow _,
              )
        | inr (r, found) ↦
            unfold contains in rw (asked, found) (table_of_sound s allow f v.key r found, f, refl)
      ]
    ]
  where
    own : (r : Bool) → r ≡ answer s.specifiers allow v → IsAnswer s.specifiers allow v.key r
    own r e = record { version = v; made = good; same = refl; given = e }

-- With no "===" it is the answer for the version itself.
pub answered :
    (l : List Specifier) (allow : Bool) (v : Version) (r : Bool)
    → HasNoArbitrary l
    → IsVersion v
    → IsAnswer l allow v.key r
    → r ≡ answer l allow v
answered l allow v r plain good a =
    a.given ∙ answer_congr a.version v a.made good a.same l allow plain

pub fresh-IsSound : (l : List Specifier) → IsSound (fresh l)
unfolding lookup
fresh-IsSound l = record { final_only = λ k r found. cc; all = λ k r found. cc }

-- There is no "===", or all versions in every clause have one spelling.
abbrev pub HasOneSpelling : List Specifier → Type 0
HasOneSpelling l =
    (v w : Version)
    → every (λ s. Specifier.contains s v) l ≡ true
    → every (λ s. Specifier.contains s w) l ≡ true
    → public v ≡ public w

pub spelling_cases : (l : List Specifier) → HasNoArbitrary l ⊎ HasOneSpelling l
unfolding Specifier.contains
spelling_cases [] = inl tt
spelling_cases (s ∷ l) = elim (Option-cases s.parsed_version) [
  | inl absent ↦ inr (λ v w hv hw.
      (=?_iff (public v) s.version).0 (ground (arith, absent, hv))
      ∙ sym ((=?_iff (public w) s.version).0 (ground (arith, absent, hw))))
  | inr (o, parsed) ↦ elim (spelling_cases l) [
    | inl plain ↦ inl (o, parsed, plain)
    | inr one ↦ inr (λ v w hv hw. one v w (ground (arith, hv)) (ground (arith, hw)))
  ]
]

-- ===== src/SpecifierSet/Shared.antt =====
-- Where the tables of answers do show: "===" reads the spelling, and the tables the key.
use core_pip.Prelude.{
  ◌≡◌, ◌≢◌, sym, Bool, true, false, none, some, [], ◌∷◌, Text, text_ord, =?_iff, arith,
}
use core_pip.Version.{Version, key_ord, public}
use core_pip.Specifier.{Specifier, arbitrary}
use core_pip.Specifier
use core_pip.Caches.{lookup, bounded_put, lookup-insert}
use core_pip.SpecifierSet.Defs.{answer, contains, fresh, contains_cache_size}
use core_pip.SpecifierSet.Answers.{contains_all}

-- The clause `===text`.
abbrev pub spelled : Text → Specifier
spelled t = record { operator = arbitrary; version = t; parsed_version = none; is_wildcard = false }

put_found :
    (v w : Version) (r : Bool)
    → v.key ≡ w.key
    → lookup w.key (bounded_put contains_cache_size v.key r []) ≡ some r
unfolding bounded_put
put_found v w r same = ground (arith, lookup-insert v.key w.key r [], =?_iff w.key v.key)

second_asked :
    (t : Text) (v w : Version) (r : Bool)
    → v.key ≡ w.key
    → answer (spelled t ∷ []) true v ≡ r
    → (contains_all (fresh (spelled t ∷ [])) ((v, true) ∷ (w, true) ∷ [])).0 ≡ r ∷ r ∷ []
unfolding contains lookup
second_asked t v w r same first = rw (first, put_found v w r same)

own_spelling : (v : Version) → answer (spelled (public v) ∷ []) true v ≡ true
unfolding Specifier.contains
own_spelling v = ground (arith, =?_iff (public v) (public v))

other_spelling :
    (v w : Version) → public v ≢ public w → answer (spelled (public v) ∷ []) true w ≡ false
unfolding Specifier.contains
other_spelling v w differ = ground (arith, =?_iff (public w) (public v))

-- For every two versions of one key and different spellings, the set "===" of the first spelling
-- contains the first version and not the second. But the tables give both the answer that was
-- computed for the one that was asked first, so either of the two may be answered wrongly.
pub contains_spelling :
    (v w : Version)
    → v.key ≡ w.key
    → public v ≢ public w
    → (answer (spelled (public v) ∷ []) true v ≡ true)
      × (answer (spelled (public v) ∷ []) true w ≡ false)
      × ((contains_all (fresh (spelled (public v) ∷ [])) ((v, true) ∷ (w, true) ∷ [])).0
          ≡ true ∷ true ∷ [])
      × ((contains_all (fresh (spelled (public v) ∷ [])) ((w, true) ∷ (v, true) ∷ [])).0
          ≡ false ∷ false ∷ [])
contains_spelling v w same differ =
    let yes_first = own_spelling v in
    let no_second = other_spelling v w differ in
    (
      yes_first,
      no_second,
      second_asked (public v) v w true same yes_first,
      second_asked (public v) w v false (sym same) no_second,
    )

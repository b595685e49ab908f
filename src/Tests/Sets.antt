-- ===== src/Tests/Sets.antt =====
-- Sets of clauses, with their tables.
use core_pip.Prelude.{
  ends_with, ℕ, ◌≡◌, ◌≢◌, refl, Bool, true, false, some, List, [], ◌∷◌, map, Text, codes, Result,
  ok, every, arith, text_ord, strip, join, split,
}
use core_pip.Version.{Version, final_suffix, public, word, key_ord}
use core_pip.Version.Release.{normalize}
use core_pip.Version.Decimal.{int_from, str_of}
use core_pip.Version.Build.{VersionError, with_key, new_version}
use core_pip.Specifier.{Specifier, equal, at_least, arbitrary, new_specifier, contains_op}
use core_pip.Specifier
use core_pip.Specifier.Keys.{IsVersion}
use core_pip.Caches.{Table, interned_all, IsIntern, interned_all_lem, lookup}
use core_pip.SpecifierSet.{
  fresh, answer, contains_all, contains_all_lem, spelled, contains_spelling, new_specifier_set,
  set_text, IsWritten, new_specifier_set-set_text,
}
use core_pip.Tests.Matcher.{reader}

abbrev final : List ℕ → Version
final r = with_key 0 r final_suffix []

abbrev one : Version
one = final (1 ∷ [])

abbrev one_zero : Version
one_zero = final (1 ∷ 0 ∷ [])

abbrev least : Specifier
least = record {
  operator = at_least;
  version = codes "1.0";
  parsed_version = some one_zero;
  is_wildcard = false;
}

final-IsVersion : (n : ℕ) (r : List ℕ) → IsVersion (final (n ∷ r))
final-IsVersion n r = record { release_given = refl; normal = refl }

-- "1" is asked, and "1.0", which has the key of "1", finds its entry.
abbrev questions : List (Version × Bool)
questions = (one, true) ∷ (one_zero, true) ∷ (one, false) ∷ []

contains_all_lem_example :
    (contains_all (fresh (least ∷ [])) questions).0
    ≡ map (λ (v, allow). answer (least ∷ []) allow v) questions
contains_all_lem_example =
    contains_all_lem (least ∷ []) questions (one_zero, refl, tt)
      (final-IsVersion 1 [], (final-IsVersion 1 (0 ∷ []), (final-IsVersion 1 [], tt)))

one_key : one.key ≡ one_zero.key
unfolding normalize
one_key = refl

two_spellings : public one ≢ public one_zero
unfolding public str_of join
two_spellings e = ground (arith, e)

contains_spelling_example :
    (answer (spelled (public one) ∷ []) true one ≡ true)
    × (answer (spelled (public one) ∷ []) true one_zero ≡ false)
    × ((contains_all (fresh (spelled (public one) ∷ [])) ((one, true) ∷ (one_zero, true) ∷ [])).0
        ≡ true ∷ true ∷ [])
    × ((contains_all (fresh (spelled (public one) ∷ [])) ((one_zero, true) ∷ (one, true) ∷ [])).0
        ≡ false ∷ false ∷ [])
contains_spelling_example = contains_spelling one one_zero one_key two_spellings

abbrev pinned : Specifier
pinned = record {
  operator = equal;
  version = codes "1.0";
  parsed_version = some one_zero;
  is_wildcard = false;
}

abbrev local : Version
local = with_key 0 (1 ∷ []) final_suffix (word (codes "x") ∷ [])

pinned_local : every (λ s. Specifier.contains s local) (pinned ∷ []) ≡ true
unfolding Specifier.contains contains_op key_ord normalize
pinned_local = refl

pinned-one : every (λ s. Specifier.contains s one) (pinned ∷ []) ≡ true
unfolding Specifier.contains contains_op key_ord normalize
pinned-one = refl

-- "==1.0" as the constructor makes it.
pinned_made : new_specifier reader equal (codes "1.0") ≡ ok pinned
unfolding new_specifier new_version strip split ends_with int_from
pinned_made = refl

pinned-IsWritten : IsWritten reader pinned
pinned-IsWritten = record {
  given = refl;
  no_space = refl;
  no_comma = refl;
  no_equals = refl;
  made = pinned_made;
}

new_specifier_set-set_text_example :
    new_specifier_set reader (set_text (pinned ∷ pinned ∷ [])) ≡ ok (pinned ∷ pinned ∷ [])
new_specifier_set-set_text_example =
    new_specifier_set-set_text reader (pinned ∷ pinned ∷ [])
      (pinned-IsWritten, (pinned-IsWritten, tt))

abbrev entries : Table Text ℕ
entries = (codes "a", 1) ∷ (codes "b", 2) ∷ []

abbrev make : Text → Result VersionError Version
make = new_version reader

none_found : (value : Text) (v : Version) → lookup value [] ≡ some v → make value ≡ ok v
unfolding lookup
none_found value v h = cc

no_entries-IsIntern : IsIntern 2 make []
no_entries-IsIntern = record { bounded = omega arith; faithful = λ value v h. none_found value v h }

-- Three texts, one of them twice, and a table of two entries.
abbrev texts : List Text
texts = codes "1.0" ∷ codes "x" ∷ codes "2" ∷ codes "1.0" ∷ codes "3" ∷ []

interned_all_lem_example :
    ((interned_all 2 make texts []).0 ≡ map make texts)
    × IsIntern 2 make (interned_all 2 make texts []).1
interned_all_lem_example = interned_all_lem 2 make texts [] (omega arith) no_entries-IsIntern

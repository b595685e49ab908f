-- ===== src/Tests/Clauses.antt =====
-- Clauses and the bounds of clauses.
use core_pip.Prelude.{
  ℕ, ◌≡◌, refl, true, false, some, List, [], ◌∷◌, Text, codes, ok, every, ◌<=?◌, ◌↔◌, ◌+◌, ◌<◌,
  get_or, length, none, arith,
}
use core_pip.Version.{Version, final_suffix, key_ord}
use core_pip.Version.Build.{with_key, suffix_of}
use core_pip.Specifier.{
  Specifier, Operator, at_least, compatible, contains, contains_op, prefix_matches,
}
use core_pip.Specifier.{is_local_of}
use core_pip.Version.Release.{normalize}
use core_pip.Specifier.Keys.{IsVersion, contains_op_congr}
use core_pip.Specifier.Laws.{compatible_iff}
use core_pip.Specifier.Bounds.{
  Bound, bounds_of, in_lower, in_upper, bounds_of_lower, bounds_of_upper, equals, bounds_of_local,
}
use core_pip.Version.{word}
use core_pip.Version.{suffix_ord}
use core_pip.Tests.Matcher.{reader, reader-ReadsEpoch}

abbrev final : List ℕ → Version
final r = with_key 0 r final_suffix []

abbrev clause : Operator → Text → Version → Specifier
clause op t v = record { operator = op; version = t; parsed_version = some v; is_wildcard = false }

-- ">=1.2,~=1.4"
abbrev clauses : List Specifier
clauses =
    clause at_least (codes "1.2") (final (1 ∷ 2 ∷ []))
    ∷ clause compatible (codes "1.4") (final (1 ∷ 4 ∷ []))
    ∷ []

abbrev chosen : Version
chosen = final (1 ∷ 5 ∷ [])

final-IsVersion : (n : ℕ) (r : List ℕ) → IsVersion (final (n ∷ r))
final-IsVersion n r = record { release_given = refl; normal = refl }

chosen_fits : every (λ s. contains s chosen) clauses ≡ true
unfolding contains contains_op prefix_matches key_ord normalize
chosen_fits = refl

bounds_of_lower_example :
    (lower : Bound) × (upper : Bound) × (bounds_of reader clauses ≡ ok (lower, upper))
    × (in_lower lower chosen ≡ true)
bounds_of_lower_example =
    bounds_of_lower reader clauses chosen reader-ReadsEpoch
      (final-IsVersion 1 (2 ∷ []), (final-IsVersion 1 (4 ∷ []), tt)) (final-IsVersion 1 (5 ∷ []))
      chosen_fits

bounds_of_upper_example :
    (lower : Bound) × (upper : Bound) × (bounds_of reader clauses ≡ ok (lower, upper))
    × (in_upper upper chosen ≡ true)
bounds_of_upper_example =
    bounds_of_upper reader clauses chosen reader-ReadsEpoch
      (final-IsVersion 1 (2 ∷ []), (final-IsVersion 1 (4 ∷ []), tt)) (final-IsVersion 1 (5 ∷ []))
      chosen_fits refl

-- "1.0+local"
abbrev local : Version
local = with_key 0 (1 ∷ 0 ∷ []) final_suffix (word (codes "local") ∷ [])

local_of_final : is_local_of local (final (1 ∷ 0 ∷ [])) ≡ true
unfolding normalize suffix_ord
local_of_final = refl

bounds_of_local_example :
    (contains (equals (codes "1.0") (final (1 ∷ 0 ∷ []))) local ≡ true)
    × (bounds_of reader (equals (codes "1.0") (final (1 ∷ 0 ∷ [])) ∷ [])
        ≡ ok (some (final (1 ∷ 0 ∷ []), true), some (final (1 ∷ 0 ∷ []), true)))
    × (in_upper (some (final (1 ∷ 0 ∷ []), true)) local ≡ false)
bounds_of_local_example =
    bounds_of_local reader (codes "1.0") (final (1 ∷ 0 ∷ [])) local local_of_final

one_key : (final (1 ∷ [])).key ≡ (final (1 ∷ 0 ∷ [])).key
unfolding normalize
one_key = refl

contains_op_congr_example :
    contains_op compatible false (final (1 ∷ [])) (final (1 ∷ 0 ∷ 0 ∷ []))
    ≡ contains_op compatible false (final (1 ∷ 0 ∷ [])) (final (1 ∷ 0 ∷ 0 ∷ []))
contains_op_congr_example =
    contains_op_congr (final (1 ∷ [])) (final (1 ∷ 0 ∷ [])) (final-IsVersion 1 [])
      (final-IsVersion 1 (0 ∷ [])) one_key compatible false (final (1 ∷ 0 ∷ 0 ∷ []))

abbrev post : Version
unfolding suffix_of
post = with_key 0 (1 ∷ 4 ∷ []) (suffix_of none (some 1) none) []

-- "~=1.4.post1" and the version "1.9"
compatible_iff_example : (contains_op compatible false (final (1 ∷ 9 ∷ [])) post ≡ true) ↔ (
    ((post.key <=? (final (1 ∷ 9 ∷ [])).key) ≡ true)
    × ((final (1 ∷ 9 ∷ [])).epoch ≡ post.epoch)
    × ((i : ℕ) → i + 1 < length post.release → get_or (1 ∷ 9 ∷ []) i 0 ≡ get_or post.release i 0))
unfolding post
compatible_iff_example = compatible_iff (final (1 ∷ 9 ∷ [])) post false (omega arith)

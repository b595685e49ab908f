-- ===== src/Version/Wire.antt =====
-- `to_wire` and `is_version_wire`: the record of a version in the cached summaries.
use core_pip.Prelude.{
  Ord, ℕ, zero, suc, ◌≡◌, ◌∙◌, ap, refl, sym, Bool, true, false, ◌&&◌, not, Option, none, some,
  List, [], ◌∷◌, map, Text, length, drop_last, last_or, ltb, nat_beq, is_nil, ◌=?◌, =?_iff,
  list_ord, if◌then◌else◌, arith,
}
use core_pip.Prelude.Int.{ℤ, pos, int_ord}
use core_pip.Version.Defs.{Segment, word, number, Suffix, Version}
use core_pip.Version.Display.{public}
use core_pip.Version.Release.{normalize_loop, normalize}

-- A value as it is read back. `other` is a value that is no text, no `int` and no tuple; one that
-- equals an `int` and is none, like `True`, does not occur.
mutual
  pub data Wire : Type 0 where
    text : Text → Wire
    int : ℤ → Wire
    tuple : Wires → Wire
    other : Wire

  pub data Wires : Type 0 where
    end : Wires
    item : Wire → Wires → Wires

abbrev pub ints : List ℤ → Wires
ints [] = end
ints (n ∷ l) = item (int n) (ints l)

-- `(1, number)` or `(0, text)`
abbrev pub segment_wire : Segment → Wire
segment_wire (word t) = tuple (item (int (pos 0)) (item (text t) end))
segment_wire (number n) = tuple (ints (pos 1 ∷ pos n ∷ []))

abbrev pub segment_wires : List Segment → Wires
segment_wires [] = end
segment_wires (s ∷ l) = item (segment_wire s) (segment_wires l)

abbrev pub suffix_ints : Suffix → List ℤ
suffix_ints s =
    s.pre_rank
    ∷ pos s.pre_number
    ∷ pos s.post_rank
    ∷ pos s.post_number
    ∷ pos s.dev_rank
    ∷ pos s.dev_number
    ∷ []

-- `tuple(self)`
abbrev pub key_wires : Version → Wires
key_wires v = item (int (pos v.epoch)) (
    item (tuple (ints (map pos v.normalized)))
      (item (tuple (ints (suffix_ints v.suffix))) (item (tuple (segment_wires v.local)) end)))

unfoldable pub to_wire : Version → Wire
to_wire v = tuple (
    item (text (public v))
      (item (tuple (ints (map pos v.release))) (item (tuple (key_wires v)) end)))

-- The numbers of a tuple of which every part is an `int`
abbrev pub int_list : Wires → Option (List ℤ)
int_list end = some []
int_list (item (int n) l) = elim (int_list l) [ none ↦ none | some ns ↦ some (n ∷ ns) ]
int_list (item _ l) = none

-- The loop that drops trailing zeros, one round for each part.
unfoldable pub stripped_loop : ℕ → List ℤ → List ℤ
stripped_loop zero r = r
stripped_loop (suc fuel) r =
    let next = stripped_loop fuel (drop_last r) in
    if ltb 1 (length r) && last_or r (pos 0) =? pos 0 then next else r

abbrev pub stripped : List ℤ → List ℤ
stripped r = stripped_loop (length r) r

instance abbrev pub ints_ord : Ord (List ℤ)
ints_ord = list_ord int_ord

-- The comparison with the stripped release, which is not empty.
abbrev pub are_ints : List ℤ → Option (List ℤ) → Bool
are_ints ns none = false
are_ints ns (some ms) = ms =? ns

abbrev pub are_six : Option (List ℤ) → Bool
are_six none = false
are_six (some ms) = nat_beq (length ms) 6

-- The tests of the four parts of the key, for a release of these numbers.
abbrev pub is_key : List ℤ → Wires → Bool
is_key release
      (item (int epoch) (item (tuple normalized) (item (tuple suffix) (item (tuple local) end)))) =
    are_ints (stripped release) (int_list normalized) && are_six (int_list suffix)
is_key release _ = false

abbrev pub is_release_and_key : Option (List ℤ) → Wires → Bool
is_release_and_key none key = false
is_release_and_key (some release) key = not (is_nil release) && is_key release key

unfoldable pub is_version_wire : Wire → Bool
unfolding stripped_loop
is_version_wire (tuple (item (text spelling) (item (tuple release) (item (tuple key) end)))) =
    is_release_and_key (int_list release) key
is_version_wire _ = false

int_list-ints : (l : List ℤ) → int_list (ints l) ≡ some l
int_list-ints [] = refl
int_list-ints (n ∷ l) = rw (int_list-ints l)

length-map_pos : (r : List ℕ) → length (map pos r) ≡ length r
length-map_pos [] = refl
length-map_pos (n ∷ r) = ground (arith, length-map_pos r)

drop_last-map_pos : (r : List ℕ) → drop_last (map pos r) ≡ map pos (drop_last r)
drop_last-map_pos [] = refl
drop_last-map_pos (n ∷ []) = refl
drop_last-map_pos (n ∷ m ∷ r) = ap (λ l. pos n ∷ l) (drop_last-map_pos (m ∷ r))

last_or-map_pos : (r : List ℕ) → (last_or (map pos r) (pos 0) =? pos 0) ≡ nat_beq (last_or r 0) 0
last_or-map_pos [] = ground arith
last_or-map_pos (n ∷ []) = ground arith
last_or-map_pos (n ∷ m ∷ r) = last_or-map_pos (m ∷ r)

stripped_loop-map_pos :
    (fuel : ℕ) (r : List ℕ) → stripped_loop fuel (map pos r) ≡ map pos (normalize_loop fuel r)
unfolding stripped_loop normalize_loop
stripped_loop-map_pos zero r = refl
stripped_loop-map_pos (suc fuel) r = ground (
  arith,
  length-map_pos r,
  last_or-map_pos r,
  ap (stripped_loop fuel) (drop_last-map_pos r),
  stripped_loop-map_pos fuel (drop_last r),
)

stripped-map_pos : (r : List ℕ) → stripped (map pos r) ≡ map pos (normalize r)
unfolding normalize
stripped-map_pos r =
    ap (λ n. stripped_loop n (map pos r)) (length-map_pos r) ∙ stripped_loop-map_pos (length r) r

is_nil-map_pos : (r : List ℕ) → is_nil (map pos r) ≡ is_nil r
is_nil-map_pos [] = refl
is_nil-map_pos (n ∷ r) = refl

-- The record of every version that has a release, and its trimmed form in the key, is recognized.
pub is_version_wire-to_wire :
    (v : Version)
    → is_nil v.release ≡ false
    → v.normalized ≡ normalize v.release
    → is_version_wire (to_wire v) ≡ true
unfolding to_wire is_version_wire
is_version_wire-to_wire v given normal =
    let same : (map pos v.normalized =? stripped (map pos v.release)) ≡ true =
      (=?_iff (map pos v.normalized) (stripped (map pos v.release))).1
        (ap (map pos) normal ∙ sym (stripped-map_pos v.release)) in
    rw (
      int_list-ints (map pos v.release),
      int_list-ints (map pos v.normalized),
      same,
      is_nil-map_pos v.release ∙ given,
    )

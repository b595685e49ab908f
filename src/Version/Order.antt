-- ===== src/Version/Order.antt =====
-- Tuple comparison of versions, as one order on the keys.
use core_pip.Prelude.{
  ℕ, ◌≡◌, List, [], ◌∷◌, arith, Ord, nat_ord, text_ord, pair_ord, list_ord, on_ord,
}
use core_pip.Prelude.Int.{ℤ, pos, int_ord}
use core_pip.Version.Defs.{Segment, word, number, Suffix, Key}

-- A segment as Python has it; the second component is the number, or the text.
abbrev pub segment_items : Segment → ℕ × List ℕ
segment_items (word t) = (0, t)
segment_items (number n) = (1, n ∷ [])

pub segment_items_inj : (a b : Segment) → segment_items a ≡ segment_items b → a ≡ b
segment_items_inj (word s) (word t) h = ground arith
segment_items_inj (word s) (number n) h = ground arith
segment_items_inj (number m) (word t) h = ground arith
segment_items_inj (number m) (number n) h = ground arith

abbrev pub suffix_items : Suffix → List ℤ
suffix_items s =
    s.pre_rank
    ∷ pos s.pre_number
    ∷ pos s.post_rank
    ∷ pos s.post_number
    ∷ pos s.dev_rank
    ∷ pos s.dev_number
    ∷ []

pub suffix_items_inj : (a b : Suffix) → suffix_items a ≡ suffix_items b → a ≡ b
suffix_items_inj a b h = ground arith

instance unfoldable pub segment_ord : Ord Segment
segment_ord = on_ord (pair_ord nat_ord (list_ord nat_ord)) segment_items segment_items_inj

instance unfoldable pub suffix_ord : Ord Suffix
suffix_ord = on_ord (list_ord int_ord) suffix_items suffix_items_inj

abbrev pub key_items : Key → ℕ × (List ℕ × (Suffix × List Segment))
key_items k = (k.epoch, (k.normalized, (k.suffix, k.local)))

pub key_items_inj : (a b : Key) → key_items a ≡ key_items b → a ≡ b
key_items_inj a b h = ground arith

-- The order of the four-tuple.
instance unfoldable pub key_ord : Ord Key
unfolding segment_ord suffix_ord
key_ord =
    on_ord
      (pair_ord nat_ord (pair_ord (list_ord nat_ord) (pair_ord suffix_ord (list_ord segment_ord))))
      key_items key_items_inj

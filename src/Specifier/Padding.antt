-- ===== src/Specifier/Padding.antt =====
-- Prefix matching sees a release only through its segments, the missing ones counting as zero.
use core_pip.Prelude.{
  ℕ, zero, suc, ◌-◌, ◌≡◌, ap, refl, List, [], ◌∷◌, length, take, replicate, get_or, arith,
}
use core_pip.Specifier.Defs.{padded}

-- The first segments, read one by one.
abbrev pub first : ℕ → List ℕ → List ℕ
first zero r = []
first (suc w) [] = 0 ∷ first w []
first (suc w) (n ∷ r) = n ∷ first w r

take_zeros : (w : ℕ) → take w (replicate w 0) ≡ first w []
take_zeros zero = refl
take_zeros (suc w) = ap (λ t. 0 ∷ t) (take_zeros w)

pub take-padded : (w : ℕ) (r : List ℕ) → take w (padded w r) ≡ first w r
take-padded zero r = refl
take-padded (suc w) [] = let all : suc w - 0 ≡ suc w = omega arith in rw all (take_zeros (suc w))
take-padded (suc w) (n ∷ r) =
    let left : suc w - suc (length r) ≡ w - length r = omega arith in
    rw left (ap (λ t. n ∷ t) (take-padded w r))

pub first_congr :
    (w : ℕ) (r s : List ℕ) → ((i : ℕ) → get_or r i 0 ≡ get_or s i 0) → first w r ≡ first w s
first_congr zero r s h = refl
first_congr (suc w) [] [] h = refl
first_congr (suc w) [] (m ∷ s) h = cc (h 0, first_congr w [] s (λ i. h (suc i)))
first_congr (suc w) (n ∷ r) [] h = cc (h 0, first_congr w r [] (λ i. h (suc i)))
first_congr (suc w) (n ∷ r) (m ∷ s) h = cc (h 0, first_congr w r s (λ i. h (suc i)))

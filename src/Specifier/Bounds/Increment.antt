-- ===== src/Specifier/Bounds/Increment.antt =====
-- A release that begins with certain segments is below the one whose last such segment is one more.
use core_pip.Prelude.{
  ℕ, zero, suc, ◌+◌, ◌≡◌, ◌∙◌, ap, refl, false, List, [], ◌∷◌, length, is_nil, drop_last, lt,
  list_cmp, nat_ord, arith,
}
use core_pip.Version.Release.{put_before, trim, normalize, normalize-cons}
use core_pip.Specifier.Defs.{all_but_last}
use core_pip.Specifier.Padding.{first}
use core_pip.Specifier.Bounds.Defs.{bump}

abbrev pub inc_last : List ℕ → List ℕ
inc_last [] = []
inc_last (a ∷ []) = (a + 1) ∷ []
inc_last (a ∷ b ∷ r) = a ∷ inc_last (b ∷ r)

bump-inc_last : (a b : ℕ) (r : List ℕ) → bump (a ∷ b ∷ r) ≡ inc_last (drop_last (a ∷ b ∷ r))
bump-inc_last a b [] = refl
bump-inc_last a b (c ∷ []) = refl
bump-inc_last a b (c ∷ d ∷ r) = ap (λ t. a ∷ t) (bump-inc_last b c (d ∷ r))

pub bump-eq-inc_last : (r : List ℕ) → bump r ≡ inc_last (all_but_last r)
bump-eq-inc_last [] = refl
bump-eq-inc_last (a ∷ []) = refl
bump-eq-inc_last (a ∷ b ∷ r) = bump-inc_last a b r

put_before_below :
    (n : ℕ) (t u : List ℕ)
    → list_cmp nat_ord t u ≡ lt
    → list_cmp nat_ord (put_before n t) (n ∷ u) ≡ lt
put_before_below n [] [] h = cc
put_before_below zero [] (m ∷ u) h = refl
put_before_below (suc n) [] (m ∷ u) h = ground arith
put_before_below n (m ∷ t) [] h = cc
put_before_below zero (m ∷ t) (k ∷ u) h = h
put_before_below (suc n) (m ∷ t) (k ∷ u) h = ground arith

put_before_small : (n : ℕ) (t : List ℕ) → list_cmp nat_ord (put_before n t) ((n + 1) ∷ []) ≡ lt
put_before_small zero [] = refl
put_before_small (suc n) [] = ground arith
put_before_small zero (m ∷ t) = refl
put_before_small (suc n) (m ∷ t) = ground arith

trim_below :
    (q r : List ℕ)
    → is_nil q ≡ false
    → first (length q) r ≡ q
    → list_cmp nat_ord (trim r) (inc_last q) ≡ lt
trim_below [] r full h = cc
trim_below (a ∷ []) [] full h = refl
trim_below (a ∷ []) (n ∷ r) full h =
    let same : n ≡ a = ground arith in rw (← same) (put_before_small n (trim r))
trim_below (a ∷ b ∷ q) [] full h = refl
trim_below (a ∷ b ∷ q) (n ∷ r) full h =
    let same : n ≡ a = ground arith in
    rw (← same) (put_before_below n (trim r) (inc_last (b ∷ q)) (trim_below (b ∷ q) r refl (cc)))

trim-inc_last : (q : List ℕ) → trim (inc_last q) ≡ inc_last q
trim-inc_last [] = refl
trim-inc_last (a ∷ []) = let e : a + 1 ≡ suc a = omega arith in rw e
trim-inc_last (a ∷ b ∷ q) = rw (trim-inc_last (b ∷ q)) (put_before_more b q)
  where
    put_before_more : (b : ℕ) (q : List ℕ) → put_before a (inc_last (b ∷ q)) ≡ a ∷ inc_last (b ∷ q)
    put_before_more b [] = ground arith
    put_before_more b (c ∷ q) = ground arith

normalize-inc_last : (q : List ℕ) → normalize (inc_last q) ≡ inc_last q
normalize-inc_last [] = unfold normalize in refl
normalize-inc_last (a ∷ []) = normalize-cons (a + 1) []
normalize-inc_last (a ∷ b ∷ q) =
    normalize-cons a (inc_last (b ∷ q)) ∙ ap (λ t. a ∷ t) (trim-inc_last (b ∷ q))

-- A release that begins with the segments `q`, missing ones counting as zero, is below `q` with
-- one more in its last segment.
pub normalize_below :
    (q r : List ℕ)
    → is_nil q ≡ false
    → is_nil r ≡ false
    → first (length q) r ≡ q
    → list_cmp nat_ord (normalize r) (normalize (inc_last q)) ≡ lt
normalize_below [] r full given h = cc
normalize_below (a ∷ q) [] full given h = cc
normalize_below (a ∷ []) (n ∷ r) full given h =
    rw (normalize-inc_last (a ∷ []), normalize-cons n r) (ground arith)
normalize_below (a ∷ b ∷ q) (n ∷ r) full given h =
    rw (normalize-inc_last (a ∷ b ∷ q), normalize-cons n r) (ground (arith, trim_below (b ∷ q) r))

-- ===== src/Version/Release.antt =====
-- The release element of the key: the loop of `Version.__new__` that drops trailing zeros, and
-- why two releases that differ in them are one.
use core_pip.Prelude.{
  ℕ, zero, suc, ◌≡◌, ◌≤◌, ◌∙◌, ap, refl, sym, false, ◌&&◌, List, [], ◌∷◌, length, get_or, drop_last,
  last_or, ltb, nat_beq, if◌then◌else◌, arith, ◌↔◌,
}

-- `while len(r) > 1 and r[-1] == 0: r = r[:-1]`; one round for each element is enough.
unfoldable pub normalize_loop : ℕ → List ℕ → List ℕ
normalize_loop zero r = r
normalize_loop (suc fuel) r =
    let next = normalize_loop fuel (drop_last r) in
    if ltb 1 (length r) && nat_beq (last_or r 0) 0 then next else r

unfoldable pub normalize : List ℕ → List ℕ
unfolding normalize_loop
normalize r = normalize_loop (length r) r

-- Without any trailing zero, down to the empty list.
abbrev pub put_before : ℕ → List ℕ → List ℕ
put_before zero [] = []
put_before (suc n) [] = suc n ∷ []
put_before n (m ∷ r) = n ∷ m ∷ r

abbrev pub trim : List ℕ → List ℕ
trim [] = []
trim (n ∷ r) = put_before n (trim r)

trim_zero_end :
    (n : ℕ) (r : List ℕ) → last_or (n ∷ r) 0 ≡ 0 → trim (drop_last (n ∷ r)) ≡ trim (n ∷ r)
trim_zero_end n [] h = ground arith
trim_zero_end n (m ∷ r) h = ap (put_before n) (trim_zero_end m r h)

trim_nonzero_end :
    (n : ℕ) (r : List ℕ) → nat_beq (last_or (n ∷ r) 0) 0 ≡ false → trim (n ∷ r) ≡ n ∷ r
trim_nonzero_end zero [] h = cc
trim_nonzero_end (suc n) [] h = refl
trim_nonzero_end n (m ∷ r) h = ap (put_before n) (trim_nonzero_end m r h)

length-drop_last : (n : ℕ) (r : List ℕ) → length (drop_last (n ∷ r)) ≡ length r
length-drop_last n [] = refl
length-drop_last n (m ∷ r) = ap suc (length-drop_last m r)

-- The loop keeps the first element and trims the others.
normalize_loop-cons :
    (fuel n : ℕ) (r : List ℕ) → length r ≤ fuel → normalize_loop fuel (n ∷ r) ≡ n ∷ trim r
unfolding normalize_loop
normalize_loop-cons zero n [] h = refl
normalize_loop-cons zero n (m ∷ r) h = absurd (omega arith)
normalize_loop-cons (suc fuel) n [] h = refl
normalize_loop-cons (suc fuel) n (m ∷ r) h = ground (
  arith,
  length-drop_last m r,
  normalize_loop-cons fuel n (drop_last (m ∷ r)),
  trim_zero_end m r,
  trim_nonzero_end m r,
)

pub normalize-cons : (n : ℕ) (r : List ℕ) → normalize (n ∷ r) ≡ n ∷ trim r
unfolding normalize
normalize-cons n r = normalize_loop-cons (suc (length r)) n r (omega arith)

put_before_get : (n : ℕ) (r : List ℕ) (i : ℕ) → get_or (put_before n r) i 0 ≡ get_or (n ∷ r) i 0
put_before_get zero [] zero = refl
put_before_get zero [] (suc i) = refl
put_before_get (suc n) [] i = refl
put_before_get zero (m ∷ r) i = refl
put_before_get (suc n) (m ∷ r) i = refl

get_or_tail :
    (n : ℕ) (r s : List ℕ) (i : ℕ)
    → ((j : ℕ) → get_or r j 0 ≡ get_or s j 0)
    → get_or (n ∷ r) i 0 ≡ get_or (n ∷ s) i 0
get_or_tail n r s zero h = refl
get_or_tail n r s (suc i) h = h i

-- `trim` changes no segment when the missing ones count as zero.
pub get_or-trim : (r : List ℕ) (i : ℕ) → get_or (trim r) i 0 ≡ get_or r i 0
get_or-trim [] i = refl
get_or-trim (n ∷ r) i =
    put_before_get n (trim r) i ∙ get_or_tail n (trim r) r i (λ j. get_or-trim r j)

trim_zeros : (r : List ℕ) → ((i : ℕ) → get_or r i 0 ≡ 0) → trim r ≡ []
trim_zeros [] h = refl
trim_zeros (n ∷ r) h = rw (trim_zeros r (λ i. h (suc i)), h 0)

trim_congr : (r s : List ℕ) → ((i : ℕ) → get_or r i 0 ≡ get_or s i 0) → trim r ≡ trim s
trim_congr [] s h = sym (trim_zeros s (λ i. sym (h i)))
trim_congr (n ∷ r) [] h = trim_zeros (n ∷ r) h
trim_congr (n ∷ r) (m ∷ s) h = cc (h 0, trim_congr r s (λ i. h (suc i)))

-- Two nonempty releases have one element of the key exactly when they agree at every position,
-- a missing segment counting as zero.
pub normalize_eq_iff :
    (n m : ℕ) (r s : List ℕ)
    → (normalize (n ∷ r) ≡ normalize (m ∷ s)) ↔ ((i : ℕ) → get_or (n ∷ r) i 0 ≡ get_or (m ∷ s) i 0)
normalize_eq_iff n m r s =
    rw (normalize-cons n r, normalize-cons m s)
      (
        (λ h i.
            sym (get_or_tail n (trim r) r i (get_or-trim r))
            ∙ ap (λ t. get_or t i 0) h
            ∙ get_or_tail m (trim s) s i (get_or-trim s)),
        (λ h. cc (h 0, trim_congr r s (λ i. h (suc i)))),
      )

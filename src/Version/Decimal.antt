-- ===== src/Version/Decimal.antt =====
-- `int(text)` and `str(n)` for the digit strings in a version, and texts of such numbers joined
-- by dots.
use core_pip.Prelude.{
  ◌∙◌, ap, Bool-cases, inl, inr, ℕ, zero, suc, ◌+◌, ◌-◌, ◌*◌, ◌/◌, ◌%◌, ◌<◌, ◌≡◌, ap, refl, Bool,
  true, false, List, [], ◌∷◌, ◌++◌, map, Text, every, is_digit, is_nil, isdigit, ltb, split, join,
  if◌then◌else◌, arith,
}

-- `int(text)` for a text of digits
unfoldable pub int_from : ℕ → Text → ℕ
int_from n [] = n
int_from n (c ∷ t) = int_from (n * 10 + (c - 48)) t

abbrev pub int_of : Text → ℕ
int_of t = int_from 0 t

-- `str(n)`; a number has at most as many digits as its value, or one.
unfoldable pub str_digits : ℕ → ℕ → Text
str_digits zero n = []
str_digits (suc fuel) n =
    let front = str_digits fuel (n / 10) in
    if ltb n 10 then (48 + n) ∷ [] else front ++ ((48 + n % 10) ∷ [])

unfoldable pub str_of : ℕ → Text
unfolding str_digits
str_of n = str_digits (suc n) n

int_from-append : (t : Text) (n c : ℕ) → int_from n (t ++ (c ∷ [])) ≡ int_from n t * 10 + (c - 48)
unfolding int_from
int_from-append [] n c = refl
int_from-append (d ∷ t) n c = int_from-append t (n * 10 + (d - 48)) c

every-append :
    (p : ℕ → Bool) (t : Text) (c : ℕ)
    → every p t ≡ true
    → p c ≡ true
    → every p (t ++ (c ∷ [])) ≡ true
every-append p [] c h k = ground arith
every-append p (d ∷ t) c h k = ground (arith, every-append p t c)

int_of-str_digits : (fuel n : ℕ) → n < fuel → int_of (str_digits fuel n) ≡ n
unfolding str_digits
int_of-str_digits zero n h = absurd (omega arith)
int_of-str_digits (suc fuel) n h = elim (Bool-cases (ltb n 10)) [
  | inl small ↦ rw small (unfold int_from in omega arith)
  | inr large ↦
      rw (large, int_from-append (str_digits fuel (n / 10)) 0 (48 + n % 10))
        (ground (arith, int_of-str_digits fuel (n / 10)))
]

-- Reading back a printed number gives the number.
pub int_of-str_of : (n : ℕ) → int_of (str_of n) ≡ n
unfolding str_of
int_of-str_of n = int_of-str_digits (suc n) n (omega arith)

digits_str : (fuel n : ℕ) → every is_digit (str_digits fuel n) ≡ true
unfolding str_digits
digits_str zero n = refl
digits_str (suc fuel) n = elim (Bool-cases (ltb n 10)) [
  | inl small ↦ rw small (ground arith)
  | inr large ↦ rw large (
      every-append is_digit (str_digits fuel (n / 10)) (48 + n % 10) (digits_str fuel (n / 10))
        (ground arith))
]

is_nil-append : (t : Text) (c : ℕ) → is_nil (t ++ (c ∷ [])) ≡ false
is_nil-append [] c = refl
is_nil-append (d ∷ t) c = refl

str_digits-ne-nil : (fuel n : ℕ) → is_nil (str_digits (suc fuel) n) ≡ false
unfolding str_digits
str_digits-ne-nil fuel n = elim (Bool-cases (ltb n 10)) [
  | inl small ↦ rw small
  | inr large ↦ rw large (is_nil-append (str_digits fuel (n / 10)) (48 + n % 10))
]

pub str_of-isdigit : (n : ℕ) → isdigit (str_of n) ≡ true
unfolding str_of
str_of-isdigit n = ground (arith, str_digits-ne-nil n n, digits_str (suc n) n)

pub str_of-digits : (n : ℕ) → every is_digit (str_of n) ≡ true
unfolding str_of
str_of-digits n = digits_str (suc n) n

-- A text of digits has no dot, so splitting at dots undoes joining by them.
split_digits : (t : Text) → every is_digit t ≡ true → split b'.' t ≡ t ∷ []
unfolding split
split_digits [] h = refl
split_digits (c ∷ t) h = ground (arith, split_digits t)

split_digits_dot :
    (t u : Text) → every is_digit t ≡ true → split b'.' (t ++ (b'.' ∷ u)) ≡ t ∷ split b'.' u
unfolding split
split_digits_dot [] u h = refl
split_digits_dot (c ∷ t) u h = ground (arith, split_digits_dot t u)

-- `".".join(map(str, release))`
abbrev pub dotted : List ℕ → Text
dotted r = join b'.' (map str_of r)

pub split-dotted : (n : ℕ) (r : List ℕ) → split b'.' (dotted (n ∷ r)) ≡ map str_of (n ∷ r)
unfolding join
split-dotted n [] = split_digits (str_of n) (str_of-digits n)
split-dotted n (m ∷ r) =
    split_digits_dot (str_of n) (dotted (m ∷ r)) (str_of-digits n)
    ∙ ap (λ t. str_of n ∷ t) (split-dotted m r)

pub int_of-map-str_of : (r : List ℕ) → map int_of (map str_of r) ≡ r
int_of-map-str_of [] = refl
int_of-map-str_of (n ∷ r) = cc (int_of-str_of n, int_of-map-str_of r)

pub every-isdigit-str_of : (r : List ℕ) → every isdigit (map str_of r) ≡ true
every-isdigit-str_of [] = refl
every-isdigit-str_of (n ∷ r) = ground (arith, str_of-isdigit n, every-isdigit-str_of r)

-- ===== src/Version/Build/Plain.antt =====
-- The short cut of `Version.__new__` for releases of numbers and dots.
use mathlib.Core.List.{reverse, reverse-reverse, reverse-cons}
use core_pip.Prelude.{
  ℕ, ◌≡◌, ◌∙◌, ap, refl, sym, Bool, true, false, not, ◌&&◌, Option, none, some, List, [], ◌∷◌, ◌++◌,
  map, Text, every, is_digit, is_space, isdigit, keep, nat_beq, last_or, split, push_first, strip,
  lstrip, ok, err, arith, if◌then◌else◌, Bool-cases, inl, inr,
}
use core_pip.Version.Defs.{final_suffix}
use core_pip.Version.Decimal.{dotted, split-dotted, int_of, int_of-map-str_of, every-isdigit-str_of}
use core_pip.Version.Build.Defs.{
  Groups, invalid_version, is_plain, has_double_dot, with_key, suffix_of, build, new_version,
}

-- The parts of a text behind a digit: the first part goes on the digit's number and may be empty.
abbrev goes_on : List Text → Bool
goes_on [] = true
goes_on (w ∷ ws) = every is_digit w && every isdigit ws

goes_on-push_first : (c : ℕ) (l : List Text) → goes_on (push_first c l) ≡ (is_digit c && goes_on l)
goes_on-push_first c [] = ground arith
goes_on-push_first c (w ∷ ws) = ground arith

every-push_first :
    (c : ℕ) (l : List Text) → every isdigit (push_first c l) ≡ (is_digit c && goes_on l)
every-push_first c [] = ground arith
every-push_first c (w ∷ ws) = ground arith

abbrev digits_and_dots : Text → Bool
digits_and_dots t = every is_digit (keep (λ c. not (nat_beq c b'.')) t)

goes_on-split_cons :
    (c : ℕ) (t : Text)
    → goes_on (split b'.' (c ∷ t)) ≡ (
        if nat_beq c b'.'
        then every isdigit (split b'.' t)
        else is_digit c && goes_on (split b'.' t))
unfolding split
goes_on-split_cons c t = ground (arith, goes_on-push_first c (split b'.' t))

every-split_cons :
    (c : ℕ) (t : Text)
    → every isdigit (split b'.' (c ∷ t))
      ≡ (if nat_beq c b'.' then false else is_digit c && goes_on (split b'.' t))
unfolding split
every-split_cons c t = ground (arith, every-push_first c (split b'.' t))

goes_on-split :
    (t : Text)
    → goes_on (split b'.' t)
      ≡ (digits_and_dots t && not (has_double_dot t) && not (nat_beq (last_or t 0) b'.'))
goes_on-split [] = unfold split in refl
goes_on-split (c ∷ []) = rw (goes_on-split_cons c []) (unfold split in ground arith)
goes_on-split (c ∷ d ∷ t) = ground (
  arith,
  goes_on-split_cons c (d ∷ t),
  goes_on-split (d ∷ t),
  goes_on-split_cons d t,
  every-split_cons d t,
)

-- The test for the short cut holds exactly of the texts that are numbers joined by dots.
pub is_plain_iff : (raw : Text) → is_plain raw ≡ every isdigit (split b'.' raw)
is_plain_iff [] = unfold split in refl
is_plain_iff (c ∷ []) = rw (every-split_cons c [], goes_on-split []) (ground arith)
is_plain_iff (c ∷ d ∷ t) = ground (arith, every-split_cons c (d ∷ t), goes_on-split (d ∷ t))

goes_on_no_space :
    (t : Text) → goes_on (split b'.' t) ≡ true → every (λ c. not (is_space c)) t ≡ true
goes_on_no_space [] h = refl
goes_on_no_space (c ∷ []) h = ground (arith, goes_on-split_cons c [])
goes_on_no_space (c ∷ d ∷ t) h = ground (
  arith,
  goes_on-split_cons c (d ∷ t),
  every-split_cons d t,
  goes_on-split_cons d t,
  goes_on_no_space (d ∷ t),
)

pub parts_no_space :
    (t : Text) → every isdigit (split b'.' t) ≡ true → every (λ c. not (is_space c)) t ≡ true
parts_no_space [] h = refl
parts_no_space (c ∷ t) h = ground (arith, every-split_cons c t, goes_on_no_space t)

pub every-append {ℓ} :
    {A : Type ℓ} (p : A → Bool) (xs ys : List A) → every p (xs ++ ys) ≡ (every p xs && every p ys)
every-append p [] ys = refl
every-append p (x ∷ xs) ys = ground (arith, every-append p xs ys)

every-reverse {ℓ} : {A : Type ℓ} (p : A → Bool) (xs : List A) → every p (reverse xs) ≡ every p xs
every-reverse p [] = refl
every-reverse p (x ∷ xs) =
    rw (reverse-cons, every-append p (reverse xs) (x ∷ []), every-reverse p xs) (ground arith)

lstrip_id : (t : Text) → every (λ c. not (is_space c)) t ≡ true → lstrip t ≡ t
lstrip_id [] h = refl
lstrip_id (c ∷ t) h = ground arith

pub strip_id : (t : Text) → every (λ c. not (is_space c)) t ≡ true → strip t ≡ t
unfolding strip
strip_id t h = rw (
  lstrip_id t h,
  lstrip_id (reverse t) (every-reverse (λ c. not (is_space c)) t ∙ h),
  reverse-reverse t,
)

pub dotted_parts : (n : ℕ) (r : List ℕ) → every isdigit (split b'.' (dotted (n ∷ r))) ≡ true
dotted_parts n r = rw (split-dotted n r) (every-isdigit-str_of (n ∷ r))

-- Printing a release and parsing the text gives the final version of that release, its zeros kept.
-- The regular expression is not asked, so this holds of every matcher.
pub new_version-dotted :
    (match : Text → Option Groups) (n : ℕ) (r : List ℕ)
    → new_version match (dotted (n ∷ r)) ≡ ok (with_key 0 (n ∷ r) final_suffix [])
unfolding new_version
new_version-dotted match n r =
    rw
      (
        strip_id (dotted (n ∷ r)) (parts_no_space (dotted (n ∷ r)) (dotted_parts n r)),
        is_plain_iff (dotted (n ∷ r)),
        dotted_parts n r,
      )
      (ap (λ l. ok (with_key 0 l final_suffix []))
        (ap (map int_of) (split-dotted n r) ∙ int_of-map-str_of (n ∷ r)))

-- The groups of a text that is a release and nothing more.
abbrev pub only_release : Text → Groups
only_release t = record {
  epoch_text = none;
  release_text = t;
  pre_label = none;
  pre_number = none;
  post_number_1 = none;
  post_label = none;
  post_number_2 = none;
  dev_label = none;
  dev_number = none;
  local_text = none;
}

-- If the regular expression reads every text of numbers joined by dots as a release and nothing
-- more, the short cut changes nothing: every text gives the result of matching alone.
pub new_version-eq-matched :
    (match : Text → Option Groups)
    → ((t : Text) → every isdigit (split b'.' t) ≡ true → match t ≡ some (only_release t))
    → (value : Text)
    → new_version match value
      ≡ elim (match (strip value)) [ none ↦ err invalid_version | some g ↦ build g ]
new_version-eq-matched match reads value = elim (Bool-cases (is_plain (strip value))) [
  | inl plain ↦
      unfold new_version build suffix_of in
      rw (plain, reads (strip value) (sym (is_plain_iff (strip value)) ∙ plain))
  | inr other ↦ unfold new_version in rw other
]

-- ===== src/Version/Build/Epoch.antt =====
-- A release behind an epoch, as the program prints it.
use core_pip.Prelude.{
  ℕ, ◌≡◌, ◌∙◌, ap, refl, true, false, not, Option, some, List, [], ◌∷◌, ◌++◌, map, Text, every,
  is_digit, is_space, is_nil, keep, nat_beq, ok, arith,
}
use core_pip.Version.Defs.{final_suffix}
use core_pip.Version.Decimal.{
  int_of, str_of, dotted, int_of-str_of, str_of-isdigit, str_of-digits, split-dotted,
  int_of-map-str_of,
}
use core_pip.Version.Build.Defs.{
  Groups, is_plain, with_key, release_of, suffix_of, build, new_version,
}
use core_pip.Version.Build.Plain.{
  only_release, parts_no_space, every-append, strip_id, dotted_parts,
}

abbrev pub epoch_text_of : ℕ → List ℕ → Text
epoch_text_of e r = str_of e ++ (b'!' ∷ dotted r)

-- The groups of such a text.
abbrev pub epoch_and_release : ℕ → List ℕ → Groups
epoch_and_release e r = record (only_release (dotted r)) { epoch_text = some (str_of e) }

-- The regular expression reads it as its two numbers say.
abbrev pub ReadsEpoch : (Text → Option Groups) → Type 0
ReadsEpoch match =
    (e n : ℕ) (r : List ℕ) → match (epoch_text_of e (n ∷ r)) ≡ some (epoch_and_release e (n ∷ r))

pub digits_no_space : (t : Text) → every is_digit t ≡ true → every (λ c. not (is_space c)) t ≡ true
digits_no_space [] h = refl
digits_no_space (c ∷ t) h = ground (arith, digits_no_space t)

not_plain_keep :
    (t u : Text) → every is_digit (keep (λ c. not (nat_beq c b'.')) (t ++ (b'!' ∷ u))) ≡ false
not_plain_keep [] u = refl
not_plain_keep (c ∷ t) u = ground (arith, not_plain_keep t u)

pub release_of-dotted : (n : ℕ) (r : List ℕ) → release_of (dotted (n ∷ r)) ≡ n ∷ r
release_of-dotted n r = ap (map int_of) (split-dotted n r) ∙ int_of-map-str_of (n ∷ r)

epoch_text_no_space :
    (e n : ℕ) (r : List ℕ) → every (λ c. not (is_space c)) (epoch_text_of e (n ∷ r)) ≡ true
epoch_text_no_space e n r =
    rw (every-append (λ c. not (is_space c)) (str_of e) (b'!' ∷ dotted (n ∷ r))) (
      ground (
        arith,
        digits_no_space (str_of e) (str_of-digits e),
        parts_no_space (dotted (n ∷ r)) (dotted_parts n r),
      ))

pub epoch_not_plain : (e n : ℕ) (r : List ℕ) → is_plain (epoch_text_of e (n ∷ r)) ≡ false
epoch_not_plain e n r = ground (arith, not_plain_keep (str_of e) (dotted (n ∷ r)))

build-epoch :
    (e n : ℕ) (r : List ℕ)
    → build (epoch_and_release e (n ∷ r)) ≡ ok (with_key e (n ∷ r) final_suffix [])
unfolding build suffix_of
build-epoch e n r =
    let full : is_nil (str_of e) ≡ false = ground (arith, str_of-isdigit e) in
    rw (full, int_of-str_of e, release_of-dotted n r)

pub new_version-epoch :
    (match : Text → Option Groups)
    → ReadsEpoch match
    → (e n : ℕ) (r : List ℕ)
    → new_version match (epoch_text_of e (n ∷ r)) ≡ ok (with_key e (n ∷ r) final_suffix [])
unfolding new_version
new_version-epoch match reads e n r =
    rw
      (
        strip_id (epoch_text_of e (n ∷ r)) (epoch_text_no_space e n r),
        epoch_not_plain e n r,
        reads e n r,
      )
      (build-epoch e n r)

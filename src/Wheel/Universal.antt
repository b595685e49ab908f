-- ===== src/Wheel/Universal.antt =====
-- Wheels for every platform, and the targets that support them.
use core_pip.Prelude.{
  ℕ, ◌+◌, ◌≡◌, ◌∙◌, ap, sym, refl, Bool, true, not, ◌||◌, some, List, [], ◌∷◌, ◌++◌, Text, codes,
  text_ord, ◌=?◌, some_of, lower, Bool-cases, inl, inr, keep, nat_beq, some_inj, arith,
}
use core_pip.Wheel.Defs.{WheelTag, all_tags, tags_for_interpreter, tags_for_abi}
use core_pip.Wheel.Matching.{
  interpreter_matches, wheel_tag_rank, tags_or_default, or_default, tags_of, TargetContext,
  supported_wheel_tags,
}
use core_pip.Wheel.Ranks.{
  first_index, rank_from-eq, anything, every-anything, is_for_any, agrees_any, tag_matches-any,
}

abbrev pub py3_none_any : WheelTag
py3_none_any = record { interpreter = codes "py3"; abi = codes "none"; platform = codes "any" }

some_of-append {ℓ} :
    {A : Type ℓ} (p : A → Bool) (xs ys : List A)
    → some_of p (xs ++ ys) ≡ (some_of p xs || some_of p ys)
some_of-append p [] ys = refl
some_of-append p (x ∷ xs) ys = ground (arith, some_of-append p xs ys)

some_of-left {ℓ} :
    {A : Type ℓ} (p : A → Bool) (xs ys : List A) → some_of p xs ≡ true → some_of p (xs ++ ys) ≡ true
some_of-left p xs ys h = some_of-append p xs ys ∙ rw h

some_of-right {ℓ} :
    {A : Type ℓ} (p : A → Bool) (xs ys : List A) → some_of p ys ≡ true → some_of p (xs ++ ys) ≡ true
some_of-right p xs ys h = some_of-append p xs ys ∙ ground (arith, h)

first_index-some {ℓ} :
    {A : Type ℓ} (p : A → Bool) (n : ℕ) (l : List A)
    → some_of p l ≡ true
    → (i : ℕ) × (first_index p n l ≡ some i)
first_index-some p n [] h = cc
first_index-some p n (x ∷ l) h = elim (Bool-cases (p x)) [
  | inl e ↦ (n, rw e refl)
  | inr e ↦ rw e (first_index-some p (n + 1) l (ground (arith, h, e)))
]

-- The tag of an interpreter and ABI for every platform stands behind those of the platforms.
some_for_abi :
    (p : WheelTag → Bool) (interpreter abi : Text) (platforms : List Text)
    → p (record { interpreter = interpreter; abi = abi; platform = codes "any" }) ≡ true
    → some_of p (tags_for_abi interpreter abi (platforms ++ (codes "any" ∷ []))) ≡ true
some_for_abi p interpreter abi [] h = rw h
some_for_abi p interpreter abi (platform ∷ platforms) h =
    ground (arith, some_for_abi p interpreter abi platforms h)

py3_agrees :
    (digits : Text)
    → agrees_any
        (record { interpreter = codes "py" ++ digits; abi = codes "none"; platform = codes "any" })
        py3_none_any
      ≡ true
unfolding agrees_any interpreter_matches
py3_agrees digits = elim (Bool-cases (lower (codes "py" ++ digits) =? codes "py3")) [
  | inl e ↦ rw e refl
  | inr e ↦ rw e refl
]

-- Among the tags of a target with the default ABIs are those of "none" for every platform.
some_in_tags :
    (p : WheelTag → Bool) (implementation digits : Text) (platforms abis : List Text)
    (l : List WheelTag)
    → abis ≡ []
    → tags_of implementation digits platforms abis ≡ some l
    → p (record { interpreter = codes "py" ++ digits; abi = codes "none"; platform = codes "any" })
      ≡ true
    → some_of p l ≡ true
some_in_tags p implementation [] platforms abis l free run h = cc
some_in_tags p implementation (major ∷ digits) platforms (a ∷ abis) l free run h = cc
some_in_tags p implementation (major ∷ digits) platforms [] l free run h =
    let impl_tag = implementation ++ (major ∷ digits) in
    let py_tag = codes "py" ++ (major ∷ digits) in
    let major_tag = codes "py" ++ (major ∷ []) in
    let all = platforms ++ (codes "any" ∷ []) in
    let abis = impl_tag ∷ codes "abi3" ∷ codes "none" ∷ [] in
    let same : l ≡ all_tags (impl_tag ∷ py_tag ∷ major_tag ∷ []) abis all = sym (some_inj run) in
    let of = tags_for_interpreter impl_tag abis all in
    let of_abi = λ (abi : Text). tags_for_abi py_tag abi all in
    let rest = of_abi (codes "none") ++ [] in
    rw same (
      some_of-right p of _ (
        some_of-left p (tags_for_interpreter py_tag abis all) (all_tags (major_tag ∷ []) abis all) (
          some_of-right p (of_abi impl_tag) (of_abi (codes "abi3") ++ rest) (
            some_of-right p (of_abi (codes "abi3")) rest (
              some_of-left p (of_abi (codes "none")) []
                (some_for_abi p py_tag (codes "none") platforms h))))))

-- Every target that names no ABI, of whatever implementation, platforms and version of Python, that
-- of Python 2 included, gives a rank to the tag "py3-none-any", if its tags are computed at all.
pub py3_none_any-supported :
    (current platform : Text) (target : TargetContext) (l : List WheelTag)
    → target.abis ≡ []
    → supported_wheel_tags current platform (some target) ≡ some l
    → (i : ℕ) × (wheel_tag_rank (py3_none_any ∷ []) l ≡ some (some i))
unfolding supported_wheel_tags wheel_tag_rank
py3_none_any-supported current platform target l free run =
    let here =
      some_in_tags (λ s. some_of (agrees_any s) (py3_none_any ∷ []))
        (or_default target.implementation (codes "cp"))
        (keep (λ c. not (nat_beq c b'.')) (or_default target.python_version current))
        (tags_or_default target.platforms (platform ∷ [])) target.abis l free run
        (ground (
          arith,
          py3_agrees (keep (λ c. not (nat_beq c b'.')) (or_default target.python_version current)),
        )) in
    let (i, found) = first_index-some (λ s. some_of (agrees_any s) (py3_none_any ∷ [])) 0 l here in
    (
      i,
      rank_from-eq anything is_for_any agrees_any tag_matches-any 0 l (py3_none_any ∷ [])
            (every-anything l) (unfold is_for_any in refl)
          ∙ ap some found,
    )

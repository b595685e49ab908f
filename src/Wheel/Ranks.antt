-- ===== src/Wheel/Ranks.antt =====
-- What `wheel_tag_rank` finds where no `int` is called on a text that is no number.
use core_pip.Prelude.{
  ℕ, ◌+◌, ◌≡◌, ◌∙◌, ap, refl, Bool, true, false, not, ◌&&◌, Option, none, some, List, [], ◌∷◌, Text,
  codes, text_ord, ◌=?◌, =?_iff, every, some_of, Bool-cases, inl, inr, if◌then◌else◌, arith,
}
use core_pip.Wheel.Defs.{
  WheelTag, interpreter_lower, abi_lower, platform_lower, is_macos, is_ios, is_android,
}
use core_pip.Wheel.Matching.{
  interpreter_matches, platform_matches, tag_matches, matches_some, rank_from, wheel_tag_rank,
}

-- The index of the first item that passes a test
abbrev pub first_index {ℓ} : {A : Type ℓ} → (A → Bool) → ℕ → List A → Option ℕ
first_index p index [] = none
first_index p index (x ∷ xs) =
    let later = first_index p (index + 1) xs in if p x then some index else later

module _ (P Q : WheelTag → Bool) (f : WheelTag → WheelTag → Bool)
    (quiet : (s t : WheelTag) → P s ≡ true → Q t ≡ true → tag_matches s t ≡ some (f s t)) where
  matches_some-eq :
      (s : WheelTag) (tags : List WheelTag)
      → P s ≡ true
      → every Q tags ≡ true
      → matches_some s tags ≡ some (some_of (f s) tags)
  unfolding matches_some
  matches_some-eq s [] h k = refl
  matches_some-eq s (t ∷ tags) h k = ground (arith, quiet s t, matches_some-eq s tags h, k)

  pub rank_from-eq :
      (index : ℕ) (l tags : List WheelTag)
      → every P l ≡ true
      → every Q tags ≡ true
      → rank_from index l tags ≡ some (first_index (λ s. some_of (f s) tags) index l)
  unfolding rank_from
  rank_from-eq index [] tags h k = refl
  rank_from-eq index (s ∷ l) tags h k =
      ground (arith, matches_some-eq s tags, rank_from-eq (index + 1) l tags, h, k)

-- The platform is none of those whose parts are read as numbers.
abbrev pub is_plain_platform : WheelTag → Bool
is_plain_platform t =
    let p = platform_lower t in not (is_macos p) && not (is_ios p) && not (is_android p)

-- What a supported tag and the tag of a wheel have to agree in
abbrev pub agrees : WheelTag → WheelTag → Bool
agrees s t =
    interpreter_matches (interpreter_lower s) (interpreter_lower t) (abi_lower t)
    && abi_lower s =? abi_lower t
    && platform_lower s =? platform_lower t

abbrev pub anything : WheelTag → Bool
anything t = true

platform_matches-plain :
    (p w : Text)
    → is_macos p ≡ false
    → is_ios p ≡ false
    → is_android p ≡ false
    → platform_matches p w ≡ some (p =? w)
unfolding platform_matches
platform_matches-plain p w m i a = ground (arith, m, i, a)

none_of :
    (m i a : Bool) → (not m && not i && not a) ≡ true → (m ≡ false) × (i ≡ false) × (a ≡ false)
none_of m i a h = ground arith

guarded :
    (a b x : Bool) (o : Option Bool)
    → o ≡ some x
    → (if a && b then o else some false) ≡ some (a && b && x)
guarded a b x o h = ground (arith, h)

tag_matches-plain :
    (s t : WheelTag)
    → is_plain_platform s ≡ true
    → anything t ≡ true
    → tag_matches s t ≡ some (agrees s t)
unfolding tag_matches
tag_matches-plain s t h k =
    let p = platform_lower s in
    let (m, i, a) = none_of (is_macos p) (is_ios p) (is_android p) h in
    guarded (interpreter_matches (interpreter_lower s) (interpreter_lower t) (abi_lower t))
      (abi_lower s =? abi_lower t) (p =? platform_lower t) (platform_matches p (platform_lower t))
      (platform_matches-plain p (platform_lower t) m i a)

pub every-anything : (l : List WheelTag) → every anything l ≡ true
every-anything [] = refl
every-anything (t ∷ l) = every-anything l

-- For a target of which no platform is of macOS, iOS or Android, `wheel_tag_rank` raises nothing: for
-- every wheel it is the index of the first supported tag with which some tag of the wheel agrees, in
-- the interpreter as `interpreter_matches` has it and, whatever case they are in, in the ABI and the
-- platform; and there is no rank if there is none.
pub wheel_tag_rank_lem :
    (tags supported : List WheelTag)
    → every is_plain_platform supported ≡ true
    → wheel_tag_rank tags supported ≡ some (first_index (λ s. some_of (agrees s) tags) 0 supported)
unfolding wheel_tag_rank
wheel_tag_rank_lem tags supported plain =
    rank_from-eq is_plain_platform anything agrees tag_matches-plain 0 supported tags plain
      (every-anything tags)

-- A wheel for every platform is read without `int`.
unfoldable pub is_for_any : WheelTag → Bool
is_for_any t = platform_lower t =? codes "any"

unfoldable pub agrees_any : WheelTag → WheelTag → Bool
agrees_any s t =
    interpreter_matches (interpreter_lower s) (interpreter_lower t) (abi_lower t)
    && abi_lower s =? abi_lower t
    && platform_lower s =? codes "any"

platform_matches-any : (p : Text) → platform_matches p (codes "any") ≡ some (p =? codes "any")
unfolding platform_matches
platform_matches-any p = elim (Bool-cases (p =? codes "any")) [
  | inl e ↦ rw e refl
  | inr e ↦ rw e refl
]

pub tag_matches-any :
    (s t : WheelTag)
    → anything s ≡ true
    → is_for_any t ≡ true
    → tag_matches s t ≡ some (agrees_any s t)
unfolding tag_matches is_for_any agrees_any
tag_matches-any s t h k =
    let p = platform_lower s in
    let here : platform_lower t ≡ codes "any" = (=?_iff (platform_lower t) (codes "any")).0 k in
    guarded (interpreter_matches (interpreter_lower s) (interpreter_lower t) (abi_lower t))
      (abi_lower s =? abi_lower t) (p =? codes "any") (platform_matches p (platform_lower t))
      (ap (platform_matches p) here ∙ platform_matches-any p)

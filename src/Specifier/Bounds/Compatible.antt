-- ===== src/Specifier/Bounds/Compatible.antt =====
-- The upper bound of "~=".
use mathlib.Core.Bool.{false≢true}
use core_pip.Prelude.{
  ℕ, ◌≡◌, ◌∙◌, ap, sym, refl, true, false, Option, List, [], ◌∷◌, Text, is_nil, length, take,
  nat_beq, nat_beq_iff, Bool-cases, inl, inr, lt, =?_iff, text_ord, ◌<?◌, list_cmp, nat_ord, ok,
  arith, ◌+◌,
}
use core_pip.Version.{Version, final_suffix, key_ord}
use core_pip.Version.Release.{normalize}
use core_pip.Version.Build.{Groups, ReadsEpoch, with_key, new_version-dotted, new_version-epoch}
use core_pip.Specifier.Defs.{padded, all_but_last, prefix_matches, release_matches}
use core_pip.Specifier.Padding.{take-padded}
use core_pip.Specifier.Keys.{IsVersion}
use core_pip.Specifier.Bounds.Defs.{bump, compatible_upper_bound}
use core_pip.Specifier.Bounds.Increment.{bump-eq-inc_last, normalize_below}

-- The version that "~=" stays below.
abbrev pub upper_of : Version → Version
upper_of o = with_key o.epoch (bump o.release) final_suffix []

bump_cons : (a : ℕ) (r : List ℕ) → (n : ℕ) × (s : List ℕ) × (bump (a ∷ r) ≡ n ∷ s)
bump_cons a [] = (a + 1, [], refl)
bump_cons a (b ∷ []) = (a + 1, [], refl)
bump_cons a (b ∷ c ∷ r) = (a, bump (b ∷ c ∷ r), refl)

bumped :
    (match : Text → Option Groups)
    → ReadsEpoch match
    → (o : Version) (n : ℕ) (s : List ℕ) → bump o.release ≡ n ∷ s
    → compatible_upper_bound match o ≡ ok (upper_of o)
unfolding compatible_upper_bound
bumped match reads o n s e = rw e (elim (Bool-cases (nat_beq o.epoch 0)) [
  | inl none_given ↦ rw none_given (
      new_version-dotted match n s
      ∙ ap (λ k. ok (with_key k (n ∷ s) final_suffix []))
          (sym ((nat_beq_iff o.epoch 0).0 none_given)))
  | inr given ↦ rw given (new_version-epoch match reads o.epoch n s)
])

bump_given : (r : List ℕ) → is_nil r ≡ false → (n : ℕ) × (s : List ℕ) × (bump r ≡ n ∷ s)
bump_given [] h = absurd (false≢true (sym h))
bump_given (a ∷ r) h = bump_cons a r

-- If the regular expression reads a release behind an epoch as its numbers say, the bound of "~="
-- is parsed without an error: it is the final version of the bumped release in the same epoch.
pub compatible_upper_bound_lem :
    (match : Text → Option Groups) (o : Version)
    → ReadsEpoch match
    → IsVersion o
    → compatible_upper_bound match o ≡ ok (upper_of o)
compatible_upper_bound_lem match o reads good =
    let (n, s, e) = bump_given o.release good.release_given in bumped match reads o n s e

kept_given : (r : List ℕ) → is_nil r ≡ false → is_nil (all_but_last r) ≡ false
kept_given [] h = h
kept_given (a ∷ []) h = refl
kept_given (a ∷ b ∷ r) h = refl

release_below :
    (v o : Version)
    → IsVersion v
    → IsVersion o
    → release_matches v (all_but_last o.release) ≡ true
    → list_cmp nat_ord v.normalized (normalize (bump o.release)) ≡ lt
release_below v o good_v good_o h =
    let q = all_but_last o.release in
    rw (good_v.normal, bump-eq-inc_last o.release)
      (normalize_below q v.release (kept_given o.release good_o.release_given) good_v.release_given
        (sym (take-padded (length q) v.release)
          ∙ (=?_iff (take (length q) (padded (length q) v.release)) q).0 h))

-- What "~=" contains lies below the bound.
pub prefix_matches_below :
    (v o : Version)
    → IsVersion v
    → IsVersion o
    → prefix_matches true v o ≡ true
    → (v.key <? (upper_of o).key) ≡ true
unfolding prefix_matches key_ord
prefix_matches_below v o good_v good_o h =
    ground (arith, release_below v o good_v good_o, nat_beq_iff v.epoch o.epoch)

-- ===== src/Specifier/Keys.antt =====
-- Only "===" tells two versions of one key apart.
use mathlib.Core.Bool.{false≢true}
use core_pip.Prelude.{
  not, ℕ, ◌≡◌, ◌∙◌, ap, sym, refl, Bool, true, false, List, [], ◌∷◌, length, get_or, is_nil, ◌=?◌,
  text_ord,
}
use core_pip.Version.{Version, is_prerelease}
use core_pip.Version.Release.{normalize, normalize_eq_iff}
use core_pip.Specifier.Defs.{
  Operator, arbitrary, equal, not_equal, at_least, at_most, greater, less, compatible,
  prefix_matches, release_matches, all_but_last, contains_op,
}
use core_pip.Specifier.Padding.{take-padded, first_congr}

-- What `Version.__new__` sees to: a release, and its trimmed form in the key.
pub record IsVersion (v : Version) : Type 0 where
  pub release_given : is_nil v.release ≡ false
  pub normal : v.normalized ≡ normalize v.release

segments_eq :
    (r s : List ℕ)
    → is_nil r ≡ false
    → is_nil s ≡ false
    → normalize r ≡ normalize s
    → (i : ℕ) → get_or r i 0 ≡ get_or s i 0
segments_eq [] s p q h = absurd (false≢true (sym p))
segments_eq (n ∷ r) [] p q h = absurd (false≢true (sym q))
segments_eq (n ∷ r) (m ∷ s) p q h = (normalize_eq_iff n m r s).0 h

module _ (v w : Version) (good_v : IsVersion v) (good_w : IsVersion w) (same : v.key ≡ w.key) where
  release_matches_congr : (r : List ℕ) → release_matches v r ≡ release_matches w r
  release_matches_congr r =
      ap (λ t. t =? r)
        (take-padded (length r) v.release
          ∙ first_congr (length r) v.release w.release (
              segments_eq v.release w.release good_v.release_given good_w.release_given
                (sym good_v.normal ∙ ap (λ k. k.normalized) same ∙ good_w.normal))
          ∙ sym (take-padded (length r) w.release))

  prefix_matches_congr : (c : Bool) (o : Version) → prefix_matches c v o ≡ prefix_matches c w o
  unfolding prefix_matches
  prefix_matches_congr true o = rw (release_matches_congr (all_but_last o.release), same)
  prefix_matches_congr false o = rw (release_matches_congr o.release, same)

  -- Two versions with one key, whatever zeros their releases end in, are in the same clauses of
  -- every operator but "===".
  pub contains_op_congr :
      (op : Operator) (wildcard : Bool) (o : Version)
      → contains_op op wildcard v o ≡ contains_op op wildcard w o
  unfolding contains_op
  contains_op_congr arbitrary wildcard o = refl
  contains_op_congr equal true o = prefix_matches_congr false o
  contains_op_congr equal false o = rw same
  contains_op_congr not_equal true o = ap not (prefix_matches_congr false o)
  contains_op_congr not_equal false o = rw same
  contains_op_congr at_least wildcard o = rw same
  contains_op_congr at_most wildcard o = rw same
  contains_op_congr greater wildcard o = rw same
  contains_op_congr less wildcard o = unfold is_prerelease in rw same
  contains_op_congr compatible wildcard o = rw (prefix_matches_congr true o, same)

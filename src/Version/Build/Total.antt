-- ===== src/Version/Build/Total.antt =====
-- What `Version.__new__` makes of a match.
use mathlib.Core.Bool.{false≢true}
use core_pip.Prelude.{
  Option-cases, inl, inr, ℕ, ◌<◌, ◌≡◌, ◌∙◌, refl, true, false, ◌||◌, Option, none, some, is_some,
  Text, lower, is_nil, ok, arith,
}
use core_pip.Version.Defs.{Version, is_prerelease}
use core_pip.Version.Build.Defs.{
  Groups, pre_rank_of, pre_of, post_of, dev_of, suffix_of, build, with_key, int_or_zero, release_of,
  local_of,
}
use core_pip.Version.Build.Suffixes.{prerelease_iff}

pre_rank_of_bound : (l : Text) (r : ℕ) → pre_rank_of l ≡ some r → r < 3
pre_rank_of_bound l r h = ground arith

-- The pattern's alternatives for the label of a prerelease: one of the table, in either case.
abbrev pub IsLabel : Option Text → Type 0
IsLabel none = Unit {0}
IsLabel (some l) = (is_nil l ≡ false) × (is_some (pre_rank_of (lower l)) ≡ true)

pre_of_total :
    (label n : Option Text)
    → IsLabel label
    → (pre : Option (ℕ × ℕ)) × (pre_of label n ≡ ok pre)
      × (is_some pre ≡ is_some label)
      × ((r m : ℕ) → pre ≡ some (r, m) → r < 3)
unfolding pre_of
pre_of_total none n h = (none, refl, refl, λ r m e. cc)
pre_of_total (some l) n (full, known) = elim (Option-cases (pre_rank_of (lower l))) [
  | inl e ↦ absurd (false≢true (cc))
  | inr (rank, e) ↦ (
    some (rank, int_or_zero n),
    rw (full, e),
    refl,
    λ r m p. ground (arith, pre_rank_of_bound (lower l) rank e),
  )
]

dev_named : (g : Groups) → is_some (dev_of g) ≡ is_some g.dev_label
dev_named g = ground arith

-- If the label of a prerelease, where there is one, is one of the table, then a version is built.
-- It has the release as it was written, and is a prerelease exactly if the text names a
-- prerelease or a development release.
pub build_total :
    (g : Groups)
    → IsLabel g.pre_label
    → (v : Version) × (build g ≡ ok v)
      × (v.release ≡ release_of g.release_text)
      × (is_prerelease v ≡ (is_some g.pre_label || is_some g.dev_label))
build_total g h =
    let (pre, built, same, bound) = pre_of_total g.pre_label g.pre_number h in
    (
      with_key (int_or_zero g.epoch_text) (release_of g.release_text)
          (suffix_of pre (post_of g) (dev_of g)) (local_of g.local_text),
      unfold build in rw (built, build),
      refl,
      unfold is_prerelease in
          (prerelease_iff pre (post_of g) (dev_of g) bound ∙ ground (arith, dev_named g)),
    )

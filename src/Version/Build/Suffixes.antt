-- ===== src/Version/Build/Suffixes.antt =====
-- The suffix element puts the releases of one number in the order of PEP 440.
use core_pip.Prelude.{
  ℕ, ◌<◌, ◌≡◌, ◌∙◌, refl, ap₂, ◌||◌, Option, none, some, is_some, lt, eq, gt, Ordering, compare,
  or_next, nat_ord, arith,
}
use core_pip.Prelude.Int.{ℤ, pos, negsuc, int_ord}
use core_pip.Version.Defs.{Suffix, suffix_is_prerelease}
use core_pip.Version.Order.{suffix_ord}
use core_pip.Version.Build.Defs.{suffix_of}

-- A value, or one of the two infinities of PEP 440
pub data Limit (A : Type 0) : Type 0 where
  below : Limit A
  at : A → Limit A
  above : Limit A

abbrev pub limit_cmp : {A : Type 0} → (A → A → Ordering) → Limit A → Limit A → Ordering
limit_cmp cmp below below = eq
limit_cmp cmp below _ = lt
limit_cmp cmp (at a) below = gt
limit_cmp cmp (at a) (at b) = cmp a b
limit_cmp cmp (at a) above = lt
limit_cmp cmp above above = eq
limit_cmp cmp above _ = gt

-- No prerelease stands behind all prereleases, and a bare development release before them.
abbrev pub pre_limit : Option (ℕ × ℕ) → Option ℕ → Option ℕ → Limit (ℕ × ℕ)
pre_limit (some p) post dev = at p
pre_limit none none (some d) = below
pre_limit none _ _ = above

-- No post-release stands before all post-releases.
abbrev pub post_limit : Option ℕ → Limit ℕ
post_limit none = below
post_limit (some n) = at n

-- No development release stands behind all development releases.
abbrev pub dev_limit : Option ℕ → Limit ℕ
dev_limit none = above
dev_limit (some d) = at d

abbrev pub pre_cmp : ℕ × ℕ → ℕ × ℕ → Ordering
pre_cmp (r, n) (s, m) = or_next (compare r s) (compare n m)

-- The order of PEP 440 on the prerelease, the post-release and the development release
abbrev pub Parts : Type 0
Parts = Option (ℕ × ℕ) × (Option ℕ × Option ℕ)

abbrev pub pep440_cmp : Parts → Parts → Ordering
pep440_cmp (p, (q, d)) (p', (q', d')) =
    or_next (limit_cmp pre_cmp (pre_limit p q d) (pre_limit p' q' d')) (
      or_next (limit_cmp compare (post_limit q) (post_limit q'))
        (limit_cmp compare (dev_limit d) (dev_limit d')))

rank_of : Limit (ℕ × ℕ) → ℤ
rank_of below = negsuc 0
rank_of (at (r, n)) = pos r
rank_of above = pos 3

number_of : Limit (ℕ × ℕ) → ℕ
number_of below = 0
number_of (at (r, n)) = n
number_of above = 0

abbrev suffix_from : Limit (ℕ × ℕ) → Option ℕ → Option ℕ → Suffix
suffix_from p post dev = record {
  pre_rank = rank_of p;
  pre_number = number_of p;
  post_rank = elim post [ none ↦ 0 | some _ ↦ 1 ];
  post_number = elim post [ none ↦ 0 | some n ↦ n ];
  dev_rank = elim dev [ none ↦ 1 | some _ ↦ 0 ];
  dev_number = elim dev [ none ↦ 0 | some d ↦ d ];
}

suffix_of-parts :
    (pre : Option (ℕ × ℕ)) (post dev : Option ℕ)
    → suffix_of pre post dev ≡ suffix_from (pre_limit pre post dev) post dev
unfolding suffix_of rank_of number_of
suffix_of-parts none none none = refl
suffix_of-parts none none (some d) = refl
suffix_of-parts none (some n) none = refl
suffix_of-parts none (some n) (some d) = refl
suffix_of-parts (some p) none none = refl
suffix_of-parts (some p) none (some d) = refl
suffix_of-parts (some p) (some n) none = refl
suffix_of-parts (some p) (some n) (some d) = refl

-- The rank is one of the table.
abbrev IsRank : Limit (ℕ × ℕ) → Type 0
IsRank (at (r, n)) = r < 3
IsRank _ = Unit {0}

ranks_lem :
    (a b : Limit (ℕ × ℕ)) (rest : Ordering)
    → IsRank a
    → IsRank b
    → or_next
        (int_ord.cmp (rank_of a) (rank_of b))
        (or_next (compare (number_of a) (number_of b)) rest)
      ≡ or_next (limit_cmp pre_cmp a b) rest
unfolding rank_of number_of
ranks_lem below below rest h k = refl
ranks_lem below (at (s, m)) rest h k = refl
ranks_lem below above rest h k = refl
ranks_lem (at (r, n)) below rest h k = refl
ranks_lem (at (r, n)) (at (s, m)) rest h k = ground arith
ranks_lem (at (r, n)) above rest h k = ground arith
ranks_lem above below rest h k = refl
ranks_lem above (at (s, m)) rest h k = ground arith
ranks_lem above above rest h k = refl

posts_lem :
    (q q' : Option ℕ) (rest : Ordering)
    → or_next (compare (elim q [ none ↦ 0 | some _ ↦ 1 ]) (elim q' [ none ↦ 0 | some _ ↦ 1 ])) (
        or_next
          (compare (elim q [ none ↦ 0 | some n ↦ n ]) (elim q' [ none ↦ 0 | some n ↦ n ]))
          rest)
      ≡ or_next (limit_cmp compare (post_limit q) (post_limit q')) rest
posts_lem none none rest = refl
posts_lem none (some n) rest = refl
posts_lem (some n) none rest = refl
posts_lem (some n) (some m) rest = refl

devs_lem :
    (d d' : Option ℕ)
    → or_next (compare (elim d [ none ↦ 1 | some _ ↦ 0 ]) (elim d' [ none ↦ 1 | some _ ↦ 0 ])) (
        or_next (compare (elim d [ none ↦ 0 | some n ↦ n ]) (elim d' [ none ↦ 0 | some n ↦ n ])) eq)
      ≡ limit_cmp compare (dev_limit d) (dev_limit d')
devs_lem none none = refl
devs_lem none (some n) = refl
devs_lem (some n) none = refl
devs_lem (some n) (some m) = ground arith

suffix_from_cmp :
    (a a' : Limit (ℕ × ℕ)) (q q' d d' : Option ℕ)
    → IsRank a
    → IsRank a'
    → suffix_ord.cmp (suffix_from a q d) (suffix_from a' q' d')
      ≡ or_next (limit_cmp pre_cmp a a') (
          or_next
            (limit_cmp compare (post_limit q) (post_limit q'))
            (limit_cmp compare (dev_limit d) (dev_limit d')))
unfolding suffix_ord
suffix_from_cmp a a' q q' d d' h k =
    ranks_lem a a' _ h k ∙ ap₂ or_next refl (posts_lem q q' _ ∙ ap₂ or_next refl (devs_lem d d'))

pre_limit-IsRank :
    (pre : Option (ℕ × ℕ)) (post dev : Option ℕ)
    → ((r n : ℕ) → pre ≡ some (r, n) → r < 3)
    → IsRank (pre_limit pre post dev)
pre_limit-IsRank none none none h = tt
pre_limit-IsRank none none (some d) h = tt
pre_limit-IsRank none (some n) none h = tt
pre_limit-IsRank none (some n) (some d) h = tt
pre_limit-IsRank (some (r, n)) post dev h = h r n refl

-- For all prereleases of a rank below 3, post-releases and development releases of two versions,
-- present or not, the suffixes compare as PEP 440 has it: first the prereleases, where a version
-- without one comes behind, and a bare development release before all of them; then the
-- post-releases, where a version without one comes before; then the development releases, where a
-- version without one comes behind.
pub suffix_of_order :
    (pre : Option (ℕ × ℕ)) (post dev : Option ℕ) (pre' : Option (ℕ × ℕ)) (post' dev' : Option ℕ)
    → ((r n : ℕ) → pre ≡ some (r, n) → r < 3)
    → ((r n : ℕ) → pre' ≡ some (r, n) → r < 3)
    → suffix_ord.cmp (suffix_of pre post dev) (suffix_of pre' post' dev')
      ≡ pep440_cmp (pre, (post, dev)) (pre', (post', dev'))
suffix_of_order pre post dev pre' post' dev' h k =
    ap₂ suffix_ord.cmp (suffix_of-parts pre post dev) (suffix_of-parts pre' post' dev')
    ∙ suffix_from_cmp (pre_limit pre post dev) (pre_limit pre' post' dev') post post' dev dev'
        (pre_limit-IsRank pre post dev h) (pre_limit-IsRank pre' post' dev' k)

-- A version is a prerelease exactly when it names a prerelease or a development release.
pub prerelease_iff :
    (pre : Option (ℕ × ℕ)) (post dev : Option ℕ)
    → ((r n : ℕ) → pre ≡ some (r, n) → r < 3)
    → suffix_is_prerelease (suffix_of pre post dev) ≡ (is_some pre || is_some dev)
unfolding suffix_of
prerelease_iff none none none h = refl
prerelease_iff none none (some d) h = refl
prerelease_iff none (some p) none h = refl
prerelease_iff none (some p) (some d) h = refl
prerelease_iff (some (r, n)) post dev h = ground (arith, h r n refl)

-- ===== src/Candidates/Best.antt =====
-- `sort_key_internal`, `sort_best_candidate` and `compute_best_candidate` of `CandidateEvaluator`.
pub mod Laws
pub mod Newest
use core_pip.Prelude.{
  ℕ, zero, suc, ◌+◌, ◌≡◌, Bool, true, false, not, ◌&&◌, ◌||◌, Option, none, some, List, [], ◌∷◌,
  Text, codes, text_ord, Ord, nat_ord, pair_ord, list_ord, on_ord, ◌<?◌, lower, ltb, is_some,
  ends_with, Result, if◌then◌else◌, arith,
}
use core_pip.Prelude.Int.{ℤ, pos, negsuc, int_ord}
use core_pip.Caches.{Table, lookup, insert}
use core_pip.Controls.{TextSet, has}
use core_pip.Version.{Version, Key, key_ord}
use core_pip.Version.Build.{VersionError}
use core_pip.Wheel.{WheelTag, WheelFile, tag_text, parse_wheel_file, legacy_build_tag}
use core_pip.SpecifierSet.{SpecifierSet}
use core_pip.Candidates.Models.{Candidate, Link, is_yanked, is_wheel, sha256_of}
use core_pip.Candidates.Applicable.{CandidateEvaluator, get_applicable_candidates}

-- `supported_tag_ranks` of src/cpip/index/candidate_filters.py: `ranks.setdefault` in a loop
unfoldable pub ranks_from : ℕ → List WheelTag → Table Text ℕ → Table Text ℕ
ranks_from index [] ranks = ranks
ranks_from index (tag ∷ tags) ranks =
    let text = lower (tag_text tag) in
    ranks_from (index + 1) tags
      (if is_some (lookup text ranks) then ranks else insert text index ranks)

unfoldable pub supported_tag_ranks : List WheelTag → Table Text ℕ
unfolding ranks_from
supported_tag_ranks tags = ranks_from 0 tags []

-- `()` or a number with a text, compared as tuples
abbrev pub BuildTag : Type 0
BuildTag = Option (ℕ × Text)

abbrev pub build_items : BuildTag → List (ℕ × Text)
build_items none = []
build_items (some b) = b ∷ []

pub build_items_inj : (a b : BuildTag) → build_items a ≡ build_items b → a ≡ b
build_items_inj a b h = ground arith

-- The tuple of the ranks. A version is compared by its key.
abbrev pub SortKey : Type 0
SortKey = ℕ × (ℤ × (Key × (ℕ × (ℕ × (ℕ × (ℤ × BuildTag))))))

instance unfoldable pub build_ord : Ord BuildTag
build_ord = on_ord (list_ord (pair_ord nat_ord text_ord)) build_items build_items_inj

instance unfoldable pub sort_ord : Ord SortKey
unfolding build_ord
sort_ord = pair_ord nat_ord (
    pair_ord int_ord (
      pair_ord key_ord
        (pair_ord nat_ord (pair_ord nat_ord (pair_ord nat_ord (pair_ord int_ord build_ord))))))

-- `min(..., default=None)` of the ranks of the tags that are supported
abbrev pub smaller : Option ℕ → Option ℕ → Option ℕ
smaller none best = best
smaller (some a) none = some a
smaller (some a) (some b) = if ltb b a then some b else some a

unfoldable pub best_rank : Table Text ℕ → List WheelTag → Option ℕ
best_rank ranks [] = none
best_rank ranks (tag ∷ tags) = smaller (lookup (lower (tag_text tag)) ranks) (best_rank ranks tags)

-- `-best_rank`, or -1_000_000
abbrev pub tag_rank_of : Option ℕ → ℤ
tag_rank_of none = negsuc 999999
tag_rank_of (some r) = elim r [ zero ↦ pos 0 | suc n ↦ negsuc n ]

abbrev pub hash_rank : Option TextSet → Candidate → ℕ
hash_rank none c = 0
hash_rank (some allowed) c = elim (sha256_of c) [
  | none ↦ 0
  | some digest ↦ if has digest allowed then 1 else 0
]

abbrev pub yanked_rank : Candidate → ℤ
yanked_rank c = if is_yanked c.link then negsuc 0 else pos 0

-- `Version(text)` is given.
module _ (version_of : Text → Result VersionError Version) where
  -- The wheel that is ranked: that of the candidate, or what its file name says
  unfoldable pub ranked_wheel : Candidate → Option WheelFile
  unfolding parse_wheel_file ends_with
  ranked_wheel c = elim c.wheel_file [
    | some w ↦ some w
    | none ↦
        if is_wheel c.link.kind || ends_with (codes ".whl") c.link.filename
        then parse_wheel_file version_of c.link.filename
        else none
  ]

  abbrev pub wheel_rank : Option WheelFile → ℕ
  wheel_rank none = 0
  wheel_rank (some w) = 1

  abbrev pub wheel_tags_rank : Table Text ℕ → Option WheelFile → ℤ
  wheel_tags_rank ranks none = tag_rank_of none
  wheel_tags_rank ranks (some w) = tag_rank_of (best_rank ranks w.tags)

  abbrev pub build_tag_of : Option WheelFile → BuildTag
  build_tag_of none = none
  build_tag_of (some w) = legacy_build_tag w.build_tag

  unfoldable pub sort_key : CandidateEvaluator → Candidate → SortKey
  unfolding ranked_wheel has lookup best_rank legacy_build_tag
  sort_key e c =
      let w = ranked_wheel c in
      (
        hash_rank e.hashes c,
        (
          yanked_rank c,
          (
            c.version.key,
            (
              if e.prefer_binary then wheel_rank w else 0,
              (
                wheel_rank w,
                (
                  if is_some c.link.egg_fragment then 0 else 1,
                  (wheel_tags_rank e.supported_tag_ranks w, build_tag_of w),
                ),
              ),
            ),
          ),
        ),
      )

  -- `max(candidates, key=...)`: the first of the greatest
  unfoldable pub max_from : CandidateEvaluator → Candidate → List Candidate → Candidate
  unfolding sort_key sort_ord
  max_from e best [] = best
  max_from e best (c ∷ rest) = max_from e (if sort_key e best <? sort_key e c then c else best) rest

  unfoldable pub sort_best_candidate : CandidateEvaluator → List Candidate → Option Candidate
  unfolding max_from
  sort_best_candidate e [] = none
  sort_best_candidate e (c ∷ rest) = some (max_from e c rest)

  -- The applicable candidates and the best one of a `BestCandidateResult`, and the set of clauses
  -- as it is left
  unfoldable pub compute_best_candidate :
      CandidateEvaluator → List Candidate → (List Candidate × Option Candidate) × SpecifierSet
  unfolding get_applicable_candidates sort_best_candidate
  compute_best_candidate e candidates =
      let (applicable, s) = get_applicable_candidates e candidates in
      ((applicable, sort_best_candidate e applicable), s)

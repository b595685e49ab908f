-- ===== src/Version/Build/Defs.antt =====
-- The statements of `Version.__new__`.
use core_pip.Prelude.{
  ℕ, Bool, false, ◌&&◌, ◌||◌, not, Option, none, some, List, [], ◌∷◌, map, Text, codes, strip,
  split, lower, keep, nat_beq, is_nil, isdigit, get_or, last_or, ◌=?◌, text_ord, Result, ok, err,
  if◌then◌else◌,
}
use core_pip.Prelude.Int.{pos, negsuc}
use core_pip.Names.{normalize_sub}
use core_pip.Version.Defs.{Segment, word, number, Suffix, Version, final_suffix}
use core_pip.Version.Decimal.{int_of}
use core_pip.Version.Release.{normalize}

-- `match.groups()`, in the order of the pattern
pub record Groups : Type 0 where
  pub epoch_text : Option Text
  pub release_text : Text
  pub pre_label : Option Text
  pub pre_number : Option Text
  pub post_number_1 : Option Text
  pub post_label : Option Text
  pub post_number_2 : Option Text
  pub dev_label : Option Text
  pub dev_number : Option Text
  pub local_text : Option Text

-- The exceptions that the statements can raise.
pub data VersionError : Type 0 where
  invalid_version key_error : VersionError

-- `_PRE_RANK.get(label)`
abbrev pub pre_rank_of : Text → Option ℕ
pre_rank_of l =
    if l =? codes "a" || l =? codes "alpha"
    then some 0
    else if l =? codes "b" || l =? codes "beta"
    then some 1
    else if l =? codes "c" || l =? codes "pre" || l =? codes "preview" || l =? codes "rc"
    then some 2
    else none

-- `int(text or 0)`; also `int(text) if text else 0`
abbrev pub int_or_zero : Option Text → ℕ
int_or_zero none = 0
int_or_zero (some t) = if is_nil t then 0 else int_of t

-- `pre`: no label, or the rank of the label and its number
abbrev pub ranked : Option ℕ → Option Text → Result VersionError (Option (ℕ × ℕ))
ranked none n = err key_error
ranked (some rank) n = ok (some (rank, int_or_zero n))

unfoldable pub pre_of : Option Text → Option Text → Result VersionError (Option (ℕ × ℕ))
pre_of none n = ok none
pre_of (some label) n = if is_nil label then ok none else ranked (pre_rank_of (lower label)) n

abbrev pub post_of : Groups → Option ℕ
post_of g = elim g.post_number_1 [
  | some t ↦ some (int_of t)
  | none ↦ elim g.post_label [ none ↦ none | some _ ↦ some (int_or_zero g.post_number_2) ]
]

abbrev pub dev_of : Groups → Option ℕ
dev_of g = elim g.dev_label [ none ↦ none | some _ ↦ some (int_or_zero g.dev_number) ]

-- `suffix`, from `pre`, `post` and `dev`
unfoldable pub suffix_of : Option (ℕ × ℕ) → Option ℕ → Option ℕ → Suffix
suffix_of none none none = final_suffix
suffix_of none none (some d) = record {
  pre_rank = negsuc 0;
  pre_number = 0;
  post_rank = 0;
  post_number = 0;
  dev_rank = 0;
  dev_number = d;
}
suffix_of pre post dev = record {
  pre_rank = elim pre [ none ↦ pos 3 | some (rank, n) ↦ pos rank ];
  pre_number = elim pre [ none ↦ 0 | some (rank, n) ↦ n ];
  post_rank = elim post [ none ↦ 0 | some _ ↦ 1 ];
  post_number = elim post [ none ↦ 0 | some n ↦ n ];
  dev_rank = elim dev [ none ↦ 1 | some _ ↦ 0 ];
  dev_number = elim dev [ none ↦ 0 | some d ↦ d ];
}

abbrev pub segment_of : Text → Segment
segment_of part = if isdigit part then number (int_of part) else word part

abbrev pub local_of : Option Text → List Segment
local_of none = []
local_of (some t) = map segment_of (split b'.' (normalize_sub b'.' false (lower t)))

-- `tuple(map(int, text.split(".")))`
abbrev pub release_of : Text → List ℕ
release_of t = map int_of (split b'.' t)

abbrev pub with_key : ℕ → List ℕ → Suffix → List Segment → Version
with_key e r s l = record {
  key = record { epoch = e; normalized = normalize r; suffix = s; local = l };
  release = r;
}

unfoldable pub build : Groups → Result VersionError Version
unfolding pre_of
build g = elim (pre_of g.pre_label g.pre_number) [
  | err e ↦ err e
  | ok pre ↦ ok (
      with_key (int_or_zero g.epoch_text) (release_of g.release_text)
        (suffix_of pre (post_of g) (dev_of g)) (local_of g.local_text))
]

-- `".." in raw`
abbrev pub has_double_dot : Text → Bool
has_double_dot [] = false
has_double_dot (c ∷ []) = false
has_double_dot (c ∷ d ∷ t) = nat_beq c b'.' && nat_beq d b'.' || has_double_dot (d ∷ t)

-- The test for the short cut; `raw[0]` and `raw[-1]` are read only if `raw` is not empty.
abbrev pub is_plain : Text → Bool
is_plain raw =
    not (is_nil raw)
    && isdigit (keep (λ c. not (nat_beq c b'.')) raw)
    && not (has_double_dot raw)
    && not (nat_beq (get_or raw 0 0) b'.')
    && not (nat_beq (last_or raw 0) b'.')

unfoldable pub new_version : (Text → Option Groups) → Text → Result VersionError Version
new_version match value =
    let raw = strip value in
    if is_plain raw
    then ok (with_key 0 (release_of raw) final_suffix [])
    else elim (match raw) [ none ↦ err invalid_version | some g ↦ build g ]

-- ===== src/Specifier/Defs.antt =====
-- One clause of a version specifier, and the versions that it contains.
use core_pip.Prelude.{
  ℕ, ◌-◌, Bool, true, false, not, ◌&&◌, ◌||◌, Option, none, some, List, [], ◌++◌, Text, codes,
  length, take, replicate, drop_last, is_nil, nat_beq, ends_with, ◌=?◌, ◌<?◌, ◌<=?◌, nat_ord,
  text_ord, Result, ok, err, if◌then◌else◌,
}
use core_pip.Prelude.Int.{pos, negsuc, int_ord}
use core_pip.Version.{
  Suffix, Key, Version, final_suffix, is_prerelease, suffix_ord, key_ord, public,
}
use core_pip.Version.Build.{Groups, VersionError, invalid_version, new_version}

-- "===", "==", "!=", ">=", "<=", ">", "<" and "~=". No caller gives another text.
pub data Operator : Type 0 where
  arbitrary equal not_equal at_least at_most greater less compatible : Operator

pub record Specifier : Type 0 where
  pub operator : Operator
  pub version : Text
  pub parsed_version : Option Version
  pub is_wildcard : Bool

-- The operators that a wildcard may follow.
abbrev pub takes_wildcard : Operator → Bool
takes_wildcard equal = true
takes_wildcard not_equal = true
takes_wildcard _ = false

-- The two statements behind the test for "===".
abbrev pub parsed_specifier :
    (Text → Option Groups) → Operator → Text → Bool → Result VersionError Specifier
parsed_specifier match op version wildcard =
    if wildcard && not (takes_wildcard op)
    then err invalid_version
    else elim (new_version match (if wildcard then drop_last (drop_last version) else version)) [
      | err e ↦ err e
      | ok v ↦ ok (record {
        operator = op;
        version = version;
        parsed_version = some v;
        is_wildcard = wildcard;
      })
    ]

-- `Specifier.__init__`
unfoldable pub new_specifier :
    (Text → Option Groups) → Operator → Text → Result VersionError Specifier
new_specifier match arbitrary version =
    ok (record {
      operator = arbitrary;
      version = version;
      parsed_version = none;
      is_wildcard = false;
    })
new_specifier match op version = parsed_specifier match op version (ends_with (codes ".*") version)

-- The candidate's release, with zeros up to the width.
abbrev pub padded : ℕ → List ℕ → List ℕ
padded width r = r ++ replicate (width - length r) 0

-- `release[:-1] or release`
abbrev pub all_but_last : List ℕ → List ℕ
all_but_last r = if is_nil (drop_last r) then r else drop_last r

-- The rest of `_prefix_matches`, for the release segments that are asked for.
abbrev pub release_matches : Version → List ℕ → Bool
release_matches v release = take (length release) (padded (length release) v.release) =? release

unfoldable pub prefix_matches : Bool → Version → Version → Bool
prefix_matches true v prefix =
    nat_beq v.epoch prefix.epoch && release_matches v (all_but_last prefix.release)
prefix_matches false v prefix =
    nat_beq v.epoch prefix.epoch
    && not (not (prefix.suffix =? final_suffix) && not (v.suffix =? prefix.suffix))
    && release_matches v prefix.release

-- `version[3] and not other[3] and version[:3] == other[:3]`
abbrev pub is_local_of : Version → Version → Bool
is_local_of v o =
    not (is_nil v.local)
    && is_nil o.local
    && (nat_beq v.epoch o.epoch && v.normalized =? o.normalized && v.suffix =? o.suffix)

-- The suffix with the post-release and the development release taken off.
abbrev pub base_suffix : Suffix → Suffix
base_suffix s = if s.pre_rank =? pos 3 then final_suffix else record {
  pre_rank = s.pre_rank;
  pre_number = s.pre_number;
  post_rank = 0;
  post_number = 0;
  dev_rank = 1;
  dev_number = 0;
}

-- The key `(version[0], version[1], suffix, ())`
abbrev pub with_suffix : Version → Suffix → Key
with_suffix v s = record v.key { suffix = s; local = [] }

-- For ">": the candidate is a post-release of `other`, which is none itself.
abbrev pub is_post_of : Version → Version → Bool
is_post_of v o =
    nat_beq v.suffix.post_rank 1
    && nat_beq o.suffix.post_rank 0
    && o.key =? with_suffix v (base_suffix v.suffix)

-- For "<": the suffix of the first prerelease of `other`.
abbrev pub earliest_suffix : Suffix → Suffix
earliest_suffix s =
    if s =? final_suffix
    then record {
      pre_rank = negsuc 0;
      pre_number = 0;
      post_rank = 0;
      post_number = 0;
      dev_rank = 0;
      dev_number = 0;
    }
    else record {
      pre_rank = pos 3;
      pre_number = 0;
      post_rank = s.post_rank;
      post_number = s.post_number;
      dev_rank = 0;
      dev_number = 0;
    }

abbrev pub is_pre_of : Version → Version → Bool
is_pre_of v o =
    is_prerelease v && not (is_prerelease o) && with_suffix o (earliest_suffix o.suffix) <=? v.key

-- The branches of `contains` behind its first test. "===" has no parsed version and never gets here.
unfoldable pub contains_op : Operator → Bool → Version → Version → Bool
contains_op arbitrary wildcard v o = false
contains_op equal true v o = prefix_matches false v o
contains_op equal false v o = v.key =? o.key || is_local_of v o
contains_op not_equal true v o = not (prefix_matches false v o)
contains_op not_equal false v o = not (v.key =? o.key) && not (is_local_of v o)
contains_op at_least wildcard v o = o.key <=? v.key
contains_op at_most wildcard v o = v.key <=? o.key
contains_op greater wildcard v o = o.key <? v.key && not (is_post_of v o) && not (is_local_of v o)
contains_op less wildcard v o = v.key <? o.key && not (is_pre_of v o)
contains_op compatible wildcard v o = o.key <=? v.key && prefix_matches true v o

unfoldable pub contains : Specifier → Version → Bool
contains s v = elim s.parsed_version [
  | none ↦ public v =? s.version
  | some o ↦ contains_op s.operator s.is_wildcard v o
]

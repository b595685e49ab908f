-- ===== src/Version/Defs.antt =====
-- The tuple that a `Version` is, and what is read off it.
use core_pip.Prelude.{ℕ, Bool, not, ◌||◌, List, Text, nat_beq, ◌=?◌}
use core_pip.Prelude.Int.{ℤ, pos, int_ord}

-- One part of a local label: `(0, text)` or `(1, number)`.
pub data Segment : Type 0 where
  word : Text → Segment
  number : ℕ → Segment

-- `(pre_rank, pre_number, post_rank, post_number, dev_rank, dev_number)`
pub record Suffix : Type 0 where
  pub pre_rank : ℤ
  pub pre_number : ℕ
  pub post_rank : ℕ
  pub post_number : ℕ
  pub dev_rank : ℕ
  pub dev_number : ℕ

-- The tuple `(epoch, release, suffix, local)`, its release without trailing zeros.
pub record Key : Type 0 where
  pub epoch : ℕ
  pub normalized : List ℕ
  pub suffix : Suffix
  pub local : List Segment

-- The tuple with the attribute `release`, which keeps the zeros. `==`, `<` and hashing see the
-- tuple alone.
pub record Version : Type 0 where
  pub key : Key
  pub open key use *
  pub release : List ℕ

abbrev pub final_suffix : Suffix
final_suffix = record {
  pre_rank = pos 3;
  pre_number = 0;
  post_rank = 0;
  post_number = 0;
  dev_rank = 1;
  dev_number = 0;
}

-- The property `is_prerelease`
abbrev pub suffix_is_prerelease : Suffix → Bool
suffix_is_prerelease s = not (s.pre_rank =? pos 3) || nat_beq s.dev_rank 0

unfoldable pub is_prerelease : Version → Bool
is_prerelease v = suffix_is_prerelease v.suffix

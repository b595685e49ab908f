-- ===== src/Prelude/Int.antt =====
-- Python's `int` where it can be negative, over the native numbers.
use core_pip.Prelude.{ℕ, ◌≡◌, ◌↔◌, Ordering, lt, eq, gt, compare, refl, arith}
use core_pip.Prelude.Order.{Ord, flip, nat_cmp_eq, nat_cmp_flip, nat_cmp_trans}

-- `negsuc n` is -(n + 1).
pub data ℤ : Type 0 where
  pos : ℕ → ℤ
  negsuc : ℕ → ℤ

abbrev pub int_cmp : ℤ → ℤ → Ordering
int_cmp (pos a) (pos b) = compare a b
int_cmp (pos a) (negsuc b) = gt
int_cmp (negsuc a) (pos b) = lt
int_cmp (negsuc a) (negsuc b) = compare b a

pub int_cmp-eq : (a b : ℤ) → (int_cmp a b ≡ eq) ↔ (a ≡ b)
int_cmp-eq (pos a) (pos b) = ground (arith, nat_cmp_eq a b)
int_cmp-eq (pos a) (negsuc b) = (λ h. cc, λ h. cc)
int_cmp-eq (negsuc a) (pos b) = (λ h. cc, λ h. cc)
int_cmp-eq (negsuc a) (negsuc b) = ground (arith, nat_cmp_eq b a)

pub int_cmp-flip : (a b : ℤ) → int_cmp b a ≡ flip (int_cmp a b)
int_cmp-flip (pos a) (pos b) = nat_cmp_flip a b
int_cmp-flip (pos a) (negsuc b) = refl
int_cmp-flip (negsuc a) (pos b) = refl
int_cmp-flip (negsuc a) (negsuc b) = nat_cmp_flip b a

pub int_cmp_trans : (a b c : ℤ) → int_cmp a b ≡ lt → int_cmp b c ≡ lt → int_cmp a c ≡ lt
int_cmp_trans (pos a) (pos b) (pos c) h k = nat_cmp_trans a b c h k
int_cmp_trans (negsuc a) (negsuc b) (negsuc c) h k = nat_cmp_trans c b a k h
int_cmp_trans a b c h k = ground arith

instance abbrev pub int_ord : Ord ℤ
int_ord = record {
  cmp = int_cmp;
  cmp_eq = int_cmp-eq;
  cmp_flip = int_cmp-flip;
  cmp_trans = int_cmp_trans;
}

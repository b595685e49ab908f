-- ===== src/Prelude/Order.antt =====
-- Python's comparison of values of one type, as a three-way comparison with its laws, and its
-- lexicographic extension to tuples and lists.
use Prim.Native.Nat.{ℕ, compare, Ordering}
use Prim.Native.Nat.Ordering.{lt, eq, gt}
use mathlib.Core.Path.{◌≡◌, refl, ap}
use mathlib.Core.Logic.{◌↔◌}
use mathlib.Core.Bool.{Bool, true, false}
use mathlib.Core.List.{List, [], ◌∷◌}
use native.Mathlib.Omega.{arith}

-- The comparison with its arguments exchanged.
abbrev pub flip : Ordering → Ordering
flip lt = gt
flip eq = eq
flip gt = lt

-- The second comparison decides where the first finds no difference.
abbrev pub or_next : Ordering → Ordering → Ordering
or_next lt o = lt
or_next eq o = o
or_next gt o = gt

pub record Ord {ℓ} (A : Type ℓ) : Type ℓ where
  pub cmp : A → A → Ordering
  pub cmp_eq : (a b : A) → (cmp a b ≡ eq) ↔ (a ≡ b)
  pub cmp_flip : (a b : A) → cmp b a ≡ flip (cmp a b)
  pub cmp_trans : (a b c : A) → cmp a b ≡ lt → cmp b c ≡ lt → cmp a c ≡ lt

pub nat_cmp_eq : (a b : ℕ) → (compare a b ≡ eq) ↔ (a ≡ b)
nat_cmp_eq a b = ground arith

pub nat_cmp_flip : (a b : ℕ) → compare b a ≡ flip (compare a b)
nat_cmp_flip a b = ground arith

pub nat_cmp_trans : (a b c : ℕ) → compare a b ≡ lt → compare b c ≡ lt → compare a c ≡ lt
nat_cmp_trans a b c h k = ground arith

instance abbrev pub nat_ord : Ord ℕ
nat_ord = record {
  cmp = compare;
  cmp_eq = nat_cmp_eq;
  cmp_flip = nat_cmp_flip;
  cmp_trans = nat_cmp_trans;
}

-- Two tuples: the first components decide, or else the second ones.
module _ {ℓ κ} {A : Type ℓ} {B : Type κ} (o : Ord A) (p : Ord B) where
  abbrev pub pair_cmp : A × B → A × B → Ordering
  pair_cmp (a, b) (a', b') = or_next (o.cmp a a') (p.cmp b b')

  pub pair_cmp-eq : (x y : A × B) → (pair_cmp x y ≡ eq) ↔ (x ≡ y)
  pair_cmp-eq (a, b) (a', b') = ground (arith, o.cmp_eq a a', p.cmp_eq b b')

  pub pair_cmp-flip : (x y : A × B) → pair_cmp y x ≡ flip (pair_cmp x y)
  pair_cmp-flip (a, b) (a', b') = ground (arith, o.cmp_flip a a', p.cmp_flip b b')

  pub pair_cmp_trans : (x y z : A × B) → pair_cmp x y ≡ lt → pair_cmp y z ≡ lt → pair_cmp x z ≡ lt
  pair_cmp_trans (a, b) (a', b') (a'', b'') h k = ground (
    arith,
    o.cmp_trans a a' a'',
    p.cmp_trans b b' b'',
    o.cmp_eq a a',
    o.cmp_eq a' a'',
    o.cmp_eq a a'',
  )

  abbrev pub pair_ord : Ord (A × B)
  pair_ord = record {
    cmp = pair_cmp;
    cmp_eq = pair_cmp-eq;
    cmp_flip = pair_cmp-flip;
    cmp_trans = pair_cmp_trans;
  }

-- Tuples of any length: a proper prefix is less.
module _ {ℓ} {A : Type ℓ} (o : Ord A) where
  abbrev pub list_cmp : List A → List A → Ordering
  list_cmp [] [] = eq
  list_cmp [] (b ∷ bs) = lt
  list_cmp (a ∷ as') [] = gt
  list_cmp (a ∷ as') (b ∷ bs) = or_next (o.cmp a b) (list_cmp as' bs)

  pub list_cmp-eq : (x y : List A) → (list_cmp x y ≡ eq) ↔ (x ≡ y)
  list_cmp-eq [] [] = (λ _. refl, λ _. refl)
  list_cmp-eq [] (b ∷ bs) = (λ h. cc, λ h. cc)
  list_cmp-eq (a ∷ xs) [] = (λ h. cc, λ h. cc)
  list_cmp-eq (a ∷ xs) (b ∷ bs) = ground (arith, o.cmp_eq a b, list_cmp-eq xs bs)

  pub list_cmp-flip : (x y : List A) → list_cmp y x ≡ flip (list_cmp x y)
  list_cmp-flip [] [] = refl
  list_cmp-flip [] (b ∷ bs) = refl
  list_cmp-flip (a ∷ xs) [] = refl
  list_cmp-flip (a ∷ xs) (b ∷ bs) = ground (arith, o.cmp_flip a b, list_cmp-flip xs bs)

  pub list_cmp_trans : (x y z : List A) → list_cmp x y ≡ lt → list_cmp y z ≡ lt → list_cmp x z ≡ lt
  list_cmp_trans [] [] z h k = cc
  list_cmp_trans [] (b ∷ bs) [] h k = cc
  list_cmp_trans [] (b ∷ bs) (c ∷ cs) h k = refl
  list_cmp_trans (a ∷ xs) [] z h k = cc
  list_cmp_trans (a ∷ xs) (b ∷ bs) [] h k = cc
  list_cmp_trans (a ∷ xs) (b ∷ bs) (c ∷ cs) h k =
      ground (
        arith,
        o.cmp_trans a b c,
        list_cmp_trans xs bs cs,
        o.cmp_eq a b,
        o.cmp_eq b c,
        o.cmp_eq a c,
      )

  abbrev pub list_ord : Ord (List A)
  list_ord = record {
    cmp = list_cmp;
    cmp_eq = list_cmp-eq;
    cmp_flip = list_cmp-flip;
    cmp_trans = list_cmp_trans;
  }

-- Values compared by what an injective function reads off them.
module _ {ℓ κ} {A : Type ℓ} {B : Type κ} (o : Ord B) (f : A → B) where
  abbrev pub on_ord : ((a b : A) → f a ≡ f b → a ≡ b) → Ord A
  on_ord inj = record {
    cmp = λ a b. o.cmp (f a) (f b);
    cmp_eq =
        λ a b. (λ h. inj a b ((o.cmp_eq (f a) (f b)).0 h), λ e. (o.cmp_eq (f a) (f b)).1 (ap f e));
    cmp_flip = λ a b. o.cmp_flip (f a) (f b);
    cmp_trans = λ a b c. o.cmp_trans (f a) (f b) (f c);
  }

-- Python's operators on values of an ordered type.
module _ {ℓ} {A : Type ℓ} ⦃o : Ord A⦄ where
  infix 50 ◌<?◌ ◌<=?◌ ◌=?◌
  abbrev pub ◌<?◌ : A → A → Bool
  a <? b = elim (o.cmp a b) [ lt ↦ true | _ ↦ false ]

  abbrev pub ◌<=?◌ : A → A → Bool
  a <=? b = elim (o.cmp a b) [ gt ↦ false | _ ↦ true ]

  abbrev pub ◌=?◌ : A → A → Bool
  a =? b = elim (o.cmp a b) [ eq ↦ true | _ ↦ false ]

  pub =?_iff : (a b : A) → ((a =? b) ≡ true) ↔ (a ≡ b)
  =?_iff a b = ground (arith, o.cmp_eq a b)

  pub lt→le : (a b : A) → (a <? b) ≡ true → (a <=? b) ≡ true
  lt→le a b h = ground arith

  pub le_of_eq : (a b : A) → a ≡ b → (a <=? b) ≡ true
  le_of_eq a b h = ground (arith, o.cmp_eq a b)

  pub le_of_not_lt : (a b : A) → (b <? a) ≡ false → (a <=? b) ≡ true
  le_of_not_lt a b h = ground (arith, o.cmp_flip a b)

  pub lt_of_le_of_lt : (a b c : A) → (a <=? b) ≡ true → (b <? c) ≡ true → (a <? c) ≡ true
  lt_of_le_of_lt a b c h k = ground (arith, o.cmp_eq a b, o.cmp_trans a b c)

  pub lt_of_lt_of_le : (a b c : A) → (a <? b) ≡ true → (b <=? c) ≡ true → (a <? c) ≡ true
  lt_of_lt_of_le a b c h k = ground (arith, o.cmp_eq b c, o.cmp_trans a b c)

  pub le_trans : (a b c : A) → (a <=? b) ≡ true → (b <=? c) ≡ true → (a <=? c) ≡ true
  le_trans a b c h k = ground (arith, o.cmp_eq a b, o.cmp_eq b c, o.cmp_eq a c, o.cmp_trans a b c)

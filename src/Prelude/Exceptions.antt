-- ===== src/Prelude/Exceptions.antt =====
-- A value, or the exception that was raised.
use mathlib.Core.Path.{◌≡◌, refl}

pub data Result {ℓ} (E A : Type ℓ) : Type ℓ where
  ok : A → Result E A
  err : E → Result E A

pub ok_inj {ℓ} : {E A : Type ℓ} {a b : A} → ◌≡◌ {A = Result E A} (ok a) (ok b) → a ≡ b
ok_inj h = cc

pub ok_ne_err {ℓ} : {E A : Type ℓ} {a : A} {e : E} → ok a ≡ err e → ⊥
ok_ne_err h = cc

-- Statements in a row: the second runs where the first raises nothing.
abbrev pub and_then {ℓ} : {E A B : Type ℓ} → Result E A → (A → Result E B) → Result E B
and_then (err e) f = err e
and_then (ok a) f = f a

pub and_then-ok {ℓ} :
    {E A B : Type ℓ} (r : Result E A) (f : A → Result E B) (b : B)
    → and_then r f ≡ ok b
    → (a : A) × (r ≡ ok a) × (f a ≡ ok b)
and_then-ok (err e) f b h = cc
and_then-ok (ok a) f b h = (a, refl, h)

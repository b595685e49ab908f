-- ===== src/Markers/Matched.antt =====
-- Which parentheses are taken off: those that match each other.
use mathlib.Core.Bool.{false≢true}
use core_pip.Prelude.{
  ℕ, zero, suc, ◌+◌, ◌-◌, ◌≤◌, ◌≡◌, ◌↔◌, ap, subst, refl, true, false, not, ◌&&◌, [], ◌∷◌, ◌++◌,
  Text, codes, length, keep, nat_beq, nat_beq_iff, is_nil, Bool-cases, inl, inr, if◌then◌else◌,
  arith,
}
use core_pip.Markers.Defs.{closes_last}

abbrev pub opens : Text → ℕ
opens t = length (keep (nat_beq b'(') t)

abbrev pub closes : Text → ℕ
closes t = length (keep (nat_beq b')') t)

-- Behind `d` open parentheses the text closes them all, and never one more than are open.
pub record IsMatched (d : ℕ) (t : Text) : Type 0 where
  pub never_below : (u v : Text) → t ≡ u ++ v → closes u ≤ d + opens u
  pub equal : closes t ≡ d + opens t

cons-eq : (c e : ℕ) (t u : Text) → ◌≡◌ {A = Text} (c ∷ t) (e ∷ u) → (c ≡ e) × (t ≡ u)
cons-eq c e t u h = (cc, cc)

append-ne-nil : (u : Text) (c : ℕ) (v : Text) → is_nil (u ++ (c ∷ v)) ≡ false
append-ne-nil [] c v = refl
append-ne-nil (d ∷ u) c v = refl

-- One more character in front
IsMatched-cons :
    (d d' c : ℕ) (t : Text)
    → d + opens (c ∷ []) ≡ d' + closes (c ∷ [])
    → IsMatched d' t
    → IsMatched d (c ∷ t)
IsMatched-cons d d' c t step m = record {
  never_below = below;
  equal = ground (arith, m.equal, step);
}
  where
    below : (u v : Text) → ◌≡◌ {A = Text} (c ∷ t) (u ++ v) → closes u ≤ d + opens u
    below [] v h = omega arith
    below (e ∷ u) v h =
        let (same, rest) = cons-eq c e t (u ++ v) h in
        subst (λ x. closes (x ∷ u) ≤ d + opens (x ∷ u)) same
          (ground (arith, m.never_below u v rest, step))

IsMatched-tail :
    (d d' c : ℕ) (t : Text)
    → d + opens (c ∷ []) ≡ d' + closes (c ∷ [])
    → IsMatched d (c ∷ t)
    → IsMatched d' t
IsMatched-tail d d' c t step m = record {
  never_below = λ u v h. ground (arith, m.never_below (c ∷ u) v (ap (λ x. c ∷ x) h), step);
  equal = ground (arith, m.equal, step);
}

-- One step of the walk, at one character
walk_open :
    (d : ℕ) (c : ℕ) (t : Text)
    → nat_beq c b'(' ≡ true
    → closes_last (suc d) (c ∷ t) ≡ closes_last (suc (suc d)) t
walk_open d c t e = rw ((nat_beq_iff c b'(').0 e) (ap (λ n. closes_last n t) (next d))
  where
    next : (d : ℕ) → suc d + 1 ≡ suc (suc d)
    next d = omega arith

walk_close :
    (d : ℕ) (c : ℕ) (t : Text)
    → nat_beq c b')' ≡ true
    → closes_last (suc d) (c ∷ t)
      ≡ (if nat_beq d 0 && not (is_nil t) then false else closes_last d t)
walk_close d c t e =
    rw ((nat_beq_iff c b')').0 e)
      (ap (λ n. if nat_beq n 0 && not (is_nil t) then false else closes_last n t) (last d))
  where
    last : (d : ℕ) → suc d - 1 ≡ d
    last d = omega arith

walk_other :
    (d : ℕ) (c : ℕ) (t : Text)
    → nat_beq c b'(' ≡ false
    → nat_beq c b')' ≡ false
    → closes_last (suc d) (c ∷ t) ≡ closes_last (suc d) t
walk_other d c t e f = rw (e, f) refl

nothing_below : (u v : Text) → ◌≡◌ {A = Text} [] (u ++ v) → closes u ≤ opens u
nothing_below [] v h = omega arith
nothing_below (c ∷ u) v h = cc

walk_end : (d : ℕ) → (closes_last (suc d) (codes ")") ≡ true) ↔ IsMatched d []
walk_end d = rw (walk_close d b')' [] refl) (
  λ h. record {
    never_below = λ u v e. ground (arith, nothing_below u v e);
    equal = ground (arith, h);
  },
  λ m. ground (arith, m.equal),
)

-- A closing parenthesis with nothing behind it but the last one
closing :
    (d c : ℕ) (t : Text)
    → nat_beq c b')' ≡ true
    → ((n : ℕ) → (closes_last (suc n) (t ++ codes ")") ≡ true) ↔ IsMatched n t)
    → (closes_last (suc d) (c ∷ (t ++ codes ")")) ≡ true) ↔ IsMatched d (c ∷ t)
closing zero c t f next =
    rw (walk_close zero c (t ++ codes ")") f, append-ne-nil t b')' [])
      (λ h. absurd (false≢true h), λ m. absurd (ground (arith, m.never_below (c ∷ []) t refl, f)))
closing (suc d) c t f next = rw (walk_close (suc d) c (t ++ codes ")") f) (
  λ h. IsMatched-cons (suc d) d c t (ground (arith, f)) ((next d).0 (ground (arith, h))),
  λ m. ground (arith, (next d).1 (IsMatched-tail (suc d) d c t (ground (arith, f)) m)),
)

pub walk_iff : (d : ℕ) (t : Text) → (closes_last (suc d) (t ++ codes ")") ≡ true) ↔ IsMatched d t
walk_iff d [] = walk_end d
walk_iff d (c ∷ t) = elim (Bool-cases (nat_beq c b'(')) [
  | inl open_ ↦ rw (walk_open d c (t ++ codes ")") open_) (
    (λ h. IsMatched-cons d (suc d) c t (ground (arith, open_)) ((walk_iff (suc d) t).0 h)),
    (λ m. (walk_iff (suc d) t).1 (IsMatched-tail d (suc d) c t (ground (arith, open_)) m)),
  )
  | inr e ↦ elim (Bool-cases (nat_beq c b')')) [
    | inr f ↦ rw (walk_other d c (t ++ codes ")") e f) (
      (λ h. IsMatched-cons d d c t (ground (arith, e, f)) ((walk_iff d t).0 h)),
      (λ m. (walk_iff d t).1 (IsMatched-tail d d c t (ground (arith, e, f)) m)),
    )
    | inl f ↦ closing d c t f (λ n. walk_iff n t)
  ]
]

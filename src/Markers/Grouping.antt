-- ===== src/Markers/Grouping.antt =====
-- The loop takes off the parentheses that match each other, and no others.
use mathlib.Core.List.{reverse, reverse-cons, reverse-append}
use core_pip.Prelude.{
  ℕ, zero, suc, ◌≤◌, ◌<◌, ◌≡◌, ◌∙◌, ap, refl, some, [], ◌∷◌, Text, length, length-append, drop,
  drop_last, last_or, strip, starts_with, ends_with, codes, true, nat_beq, nat_beq_iff, ◌++◌, sym,
  ap₂, lstrip, Option-cases, inl, inr, arith,
}
use core_pip.Markers.Matched.{IsMatched, walk_iff}
use core_pip.Markers.Defs.{closes_last, inner, strip_grouping_loop, strip_grouping_parentheses}

length-reverse : (t : Text) → length (reverse t) ≡ length t
length-reverse [] = refl
length-reverse (c ∷ t) =
    ap length (reverse-cons c t)
    ∙ length-append (reverse t) (c ∷ [])
    ∙ ground (arith, length-reverse t)

length-lstrip : (t : Text) → length (lstrip t) ≤ length t
length-lstrip [] = omega arith
length-lstrip (c ∷ t) = ground (arith, length-lstrip t)

length-strip : (t : Text) → length (strip t) ≤ length t
unfolding strip
length-strip t = ground (
  arith,
  length-reverse (lstrip (reverse (lstrip t))),
  length-lstrip (reverse (lstrip t)),
  length-reverse (lstrip t),
  length-lstrip t,
)

length-drop_last : (t : Text) → length (drop_last t) ≤ length t
length-drop_last [] = omega arith
length-drop_last (c ∷ []) = omega arith
length-drop_last (c ∷ d ∷ t) = ground (arith, length-drop_last (d ∷ t))

length-inner : (text t : Text) → inner text ≡ some t → length t < length text
length-inner [] t h = cc
length-inner (c ∷ text) t h = ground (arith, length-strip (drop_last text), length-drop_last text)

snoc : (c : ℕ) (t : Text) → ◌≡◌ {A = Text} (c ∷ t) (drop_last (c ∷ t) ++ (last_or (c ∷ t) 0 ∷ []))
snoc c [] = refl
snoc c (d ∷ t) = ap (λ x. c ∷ x) (snoc d t)

drop_last-snoc : (t : Text) (c : ℕ) → drop_last (t ++ (c ∷ [])) ≡ t
drop_last-snoc [] c = refl
drop_last-snoc (d ∷ []) c = refl
drop_last-snoc (d ∷ e ∷ t) c = ap (λ x. d ∷ x) (drop_last-snoc (e ∷ t) c)

starts_with-cons : (c : ℕ) (t : Text) → starts_with (codes ")") (c ∷ t) ≡ nat_beq b')' c
starts_with-cons c t = ground arith

ends_with-snoc : (t : Text) (c : ℕ) → ends_with (codes ")") (t ++ (c ∷ [])) ≡ nat_beq b')' c
unfolding ends_with
ends_with-snoc t c = rw (reverse-append t (c ∷ [])) (starts_with-cons c (reverse t))

-- A pair of parentheses around `body` that match each other
abbrev pub enclosed : Text → Text
enclosed body = b'(' ∷ (body ++ codes ")")

inner-enclosed : (body : Text) → IsMatched 0 body → inner (enclosed body) ≡ some (strip body)
inner-enclosed body m =
    rw (ends_with-snoc (b'(' ∷ body) b')', (walk_iff 0 body).1 m, drop_last-snoc body b')') refl

-- What a round finds
abbrev pub Encloses : Text → Text → Type 0
Encloses text t = (body : Text) × (text ≡ enclosed body) × IsMatched 0 body × (t ≡ strip body)

-- The three tests, and the text that is left
inner-tests :
    (text t : Text)
    → inner text ≡ some t
    → (starts_with (codes "(") text ≡ true)
      × (ends_with (codes ")") text ≡ true)
      × (closes_last 0 text ≡ true)
      × (t ≡ strip (drop_last (drop 1 text)))
inner-tests text t h = (ground (arith, h), ground (arith, h), ground (arith, h), ground (arith, h))

inner-Encloses : (text t : Text) → inner text ≡ some t → Encloses text t
inner-Encloses [] t h = cc
inner-Encloses (c ∷ []) t h =
    let (first, last, walk, rest) = inner-tests (c ∷ []) t h in
    absurd (ground (arith, first, sym (ends_with-snoc [] c) ∙ last))
inner-Encloses (c ∷ d ∷ x) t h =
    let (first, last, walk, rest) = inner-tests (c ∷ d ∷ x) t h in
    let body = drop_last (d ∷ x) in
    let e = last_or (d ∷ x) 0 in
    let opening : c ≡ b'(' = ground (arith, first) in
    let closing : e ≡ b')' = sym (
      (nat_beq_iff b')' e).0 (
        sym (ap (λ y. ends_with (codes ")") (c ∷ y)) (snoc d x) ∙ ends_with-snoc (c ∷ body) e)
        ∙ last)) in
    let parts : ◌≡◌ {A = Text} (c ∷ d ∷ x) (enclosed body) =
      ap₂ ◌∷◌ opening (snoc d x ∙ ap (λ z. body ++ (z ∷ [])) closing) in
    (body, parts, (walk_iff 0 body).0 (sym (ap (closes_last 0) parts) ∙ walk), rest)

-- Pairs that enclose the text are taken off as long as there are such.
pub data Strips : Text → Text → Type 0 where
  done : (text : Text) → ((t : Text) → ¬ Encloses text t) → Strips text text
  round : (text t result : Text) → Encloses text t → Strips t result → Strips text result

Encloses-inner : (text t : Text) → Encloses text t → inner text ≡ some t
Encloses-inner text t (body, parts, matched, rest) =
    ap inner parts ∙ inner-enclosed body matched ∙ ap some (sym rest)

strip_grouping_loop-Strips :
    (rounds : ℕ) (text : Text)
    → length text ≤ rounds
    → Strips text (strip_grouping_loop rounds text)
unfolding strip_grouping_loop
strip_grouping_loop-Strips zero [] h = done [] (λ t e. cc (Encloses-inner [] t e))
strip_grouping_loop-Strips zero (c ∷ text) h = absurd (omega arith)
strip_grouping_loop-Strips (suc rounds) text h = elim (Option-cases (inner text)) [
  | inl stop ↦
      rw (stop, strip_grouping_loop) (done text (λ t e. cc (stop, Encloses-inner text t e)))
  | inr (t, e) ↦
      rw (e, strip_grouping_loop)
        (round text t (strip_grouping_loop rounds t) (inner-Encloses text t e)
          (strip_grouping_loop-Strips rounds t (ground (arith, length-inner text t e))))
]

-- For every text the loop ends, within as many rounds as the text has characters. As long as the text
-- is "(" and ")" around a body in which no more parentheses are closed than were opened before, and
-- as many in all, it goes on with the body without the blanks at its ends; and it ends with the first
-- text that is not such.
pub strip_grouping_parentheses_lem : (text : Text) → Strips text (strip_grouping_parentheses text)
unfolding strip_grouping_parentheses
strip_grouping_parentheses_lem text = strip_grouping_loop-Strips (length text) text (omega arith)

-- ===== src/RequirementFile/Continued.antt =====
-- What a backslash at the end of a line does.
use core_pip.Prelude.{
  ℕ, suc, ◌≡◌, ◌∙◌, refl, true, Option, none, some, List, [], ◌∷◌, Text, keep, is_nil, Bool-cases,
  sym, strip, ends_with, inl, inr, arith,
}
use core_pip.RequirementFile.Defs.{
  cleaned, continued, append_some, lines_from, is_live, requirement_lines,
}

-- What is parsed of one line, whatever stands before and behind it
abbrev pub alone : ℕ → Text → ℕ × Text
alone n raw = elim (continued (cleaned raw)) [ none ↦ (n, cleaned raw) | some t ↦ (n, t) ]

abbrev pub each_alone : ℕ → List Text → List (ℕ × Text)
each_alone n [] = []
each_alone n (raw ∷ lines) = alone n raw ∷ each_alone (suc n) lines

keep-append_some :
    (k : Option (ℕ × Text)) (l l' : List (ℕ × Text))
    → keep is_live l ≡ keep is_live l'
    → keep is_live (append_some k l) ≡ keep is_live (append_some k l')
keep-append_some none l l' h = h
keep-append_some (some x) l l' h = ground (arith, h)

keep-alone :
    (n : ℕ) (line : Text) (t : Option Text) (next : Option (ℕ × Text) → List (ℕ × Text))
    (rest : List (ℕ × Text))
    → ((k : Option (ℕ × Text)) → keep is_live (next k) ≡ keep is_live (append_some k rest))
    → keep is_live (elim t [ some u ↦ next (some (n, u)) | none ↦ (n, line) ∷ next none ])
      ≡ keep is_live (elim t [ none ↦ (n, line) | some u ↦ (n, u) ] ∷ rest)
keep-alone n line none next rest h = ground (arith, h none)
keep-alone n line (some u) next rest h = h (some (n, u))

-- A line that nothing is left of is no requirement.
keep-blank :
    (n : ℕ) (line : Text) (rest : List (ℕ × Text))
    → is_nil line ≡ true
    → keep is_live (elim (continued line) [ none ↦ (n, line) | some u ↦ (n, u) ] ∷ rest)
      ≡ keep is_live rest
unfolding continued is_live strip ends_with
keep-blank n [] rest h = refl
keep-blank n (c ∷ line) rest h = cc

keep-lines_from :
    (k : Option (ℕ × Text)) (n : ℕ) (lines : List Text)
    → keep is_live (lines_from k n lines) ≡ keep is_live (append_some k (each_alone n lines))
unfolding lines_from
keep-lines_from k n [] = refl
keep-lines_from none n (raw ∷ lines) =
    keep-alone n (cleaned raw) (continued (cleaned raw)) (λ k. lines_from k (suc n) lines)
      (each_alone (suc n) lines) (λ k. keep-lines_from k (suc n) lines)
keep-lines_from (some x) n (raw ∷ lines) =
    let rest = each_alone (suc n) lines in
    keep-append_some (some x) _ (each_alone n (raw ∷ lines))
      (elim (Bool-cases (is_nil (cleaned raw))) [
        | inl e ↦
            rw e (keep-lines_from none (suc n) lines ∙ sym (keep-blank n (cleaned raw) rest e))
        | inr e ↦ rw e (
            keep-alone n (cleaned raw) (continued (cleaned raw)) (λ k. lines_from k (suc n) lines)
              rest (λ k. keep-lines_from k (suc n) lines))
      ])

-- Every line of a file is parsed on its own, with its comment and a backslash at its end taken
-- away: no line is joined to the one before it, whatever that ends in.
pub requirement_lines_lem :
    (lines : List Text) → requirement_lines lines ≡ keep is_live (each_alone 1 lines)
unfolding requirement_lines
requirement_lines_lem lines = keep-lines_from none 1 lines

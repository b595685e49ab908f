-- ===== src/SpecifierSet/Parse/RoundTrip.antt =====
-- Printing clauses and parsing the text gives the clauses.
use core_pip.Prelude.{
  ℕ, ◌≡◌, ◌∙◌, ap, refl, Bool, true, false, not, ◌||◌, Option, some, List, [], ◌∷◌, ◌++◌, map, Text,
  strip, split, join, every, some_of, has_char, is_nil, is_space, nat_beq, get_or, ok, arith,
}
use core_pip.Version.Build.{Groups, strip_id, every-append}
use core_pip.Specifier.{
  Operator, arbitrary, equal, not_equal, at_least, at_most, greater, less, compatible, Specifier,
  new_specifier,
}
use core_pip.SpecifierSet.Parse.Defs.{
  operator_text, split_operator, read_clause, read_clauses, new_specifier_set, specifier_text,
  set_text,
}

-- A clause as the constructor makes it from a version text that has no blank and no comma, and
-- does not begin with "=".
pub record IsWritten (match : Text → Option Groups) (s : Specifier) : Type 0 where
  pub given : is_nil s.version ≡ false
  pub no_space : every (λ c. not (is_space c)) s.version ≡ true
  pub no_comma : has_char b',' s.version ≡ false
  pub no_equals : nat_beq (get_or s.version 0 0) b'=' ≡ false
  pub made : new_specifier match s.operator s.version ≡ ok s

abbrev pub AreWritten : (Text → Option Groups) → List Specifier → Type 0
AreWritten match [] = Unit {0}
AreWritten match (s ∷ l) = IsWritten match s × AreWritten match l

split_operator-append :
    (op : Operator) (v : Text)
    → nat_beq (get_or v 0 0) b'=' ≡ false
    → is_nil v ≡ false
    → split_operator (operator_text op ++ v) ≡ some (op, v)
unfolding split_operator
split_operator-append op [] h g = cc
split_operator-append arbitrary (c ∷ v) h g = ground arith
split_operator-append equal (c ∷ v) h g = ground arith
split_operator-append not_equal (c ∷ v) h g = ground arith
split_operator-append at_least (c ∷ v) h g = ground arith
split_operator-append at_most (c ∷ v) h g = ground arith
split_operator-append greater (c ∷ v) h g = ground arith
split_operator-append less (c ∷ v) h g = ground arith
split_operator-append compatible (c ∷ v) h g = ground arith

some_of-append : (p : ℕ → Bool) (t u : Text) → some_of p (t ++ u) ≡ (some_of p t || some_of p u)
some_of-append p [] u = refl
some_of-append p (c ∷ t) u = ground (arith, some_of-append p t u)

operator_no_comma : (op : Operator) → has_char b',' (operator_text op) ≡ false
operator_no_comma arbitrary = refl
operator_no_comma equal = refl
operator_no_comma _ = refl

operator_no_space : (op : Operator) → every (λ c. not (is_space c)) (operator_text op) ≡ true
operator_no_space arbitrary = refl
operator_no_space _ = refl

operator_given : (op : Operator) (v : Text) → is_nil (operator_text op ++ v) ≡ false
operator_given arbitrary v = refl
operator_given _ v = refl

split_one : (sep : ℕ) (w : Text) → has_char sep w ≡ false → split sep w ≡ w ∷ []
unfolding split
split_one sep [] h = refl
split_one sep (c ∷ w) h = ground (arith, split_one sep w)

split_first :
    (sep : ℕ) (w u : Text) → has_char sep w ≡ false → split sep (w ++ (sep ∷ u)) ≡ w ∷ split sep u
unfolding split
split_first sep [] u h = ground arith
split_first sep (c ∷ w) u h = ground (arith, split_first sep w u)

module _ (match : Text → Option Groups) where
  text_no_comma : (s : Specifier) → IsWritten match s → has_char b',' (specifier_text s) ≡ false
  text_no_comma s i =
      some_of-append (nat_beq b',') (operator_text s.operator) s.version
      ∙ ground (arith, operator_no_comma s.operator, i.no_comma)

  text_no_space :
      (s : Specifier) → IsWritten match s → every (λ c. not (is_space c)) (specifier_text s) ≡ true
  text_no_space s i =
      every-append (λ c. not (is_space c)) (operator_text s.operator) s.version
      ∙ ground (arith, operator_no_space s.operator, i.no_space)

  split-set_text :
      (s : Specifier) (l : List Specifier)
      → AreWritten match (s ∷ l)
      → split b',' (set_text (s ∷ l)) ≡ map specifier_text (s ∷ l)
  unfolding join
  split-set_text s [] (i, rest) = split_one b',' (specifier_text s) (text_no_comma s i)
  split-set_text s (t ∷ l) (i, rest) =
      split_first b',' (specifier_text s) (set_text (t ∷ l)) (text_no_comma s i)
      ∙ ap (λ k. specifier_text s ∷ k) (split-set_text t l rest)

  set_text_no_space :
      (l : List Specifier) → AreWritten match l → every (λ c. not (is_space c)) (set_text l) ≡ true
  unfolding join
  set_text_no_space [] i = refl
  set_text_no_space (s ∷ []) (i, rest) = text_no_space s i
  set_text_no_space (s ∷ t ∷ l) (i, rest) =
      every-append (λ c. not (is_space c)) (specifier_text s) (b',' ∷ set_text (t ∷ l))
      ∙ ground (arith, text_no_space s i, set_text_no_space (t ∷ l) rest)

  text_given : (s : Specifier) → is_nil (specifier_text s) ≡ false
  text_given s = operator_given s.operator s.version

  read_clause-text :
      (s : Specifier) → IsWritten match s → read_clause match (specifier_text s) ≡ ok s
  unfolding read_clause
  read_clause-text s i =
      rw (split_operator-append s.operator s.version i.no_equals i.given, read_clause)
        (rw (strip_id s.version i.no_space, i.given, i.made))

  read_clauses-texts :
      (l : List Specifier) → AreWritten match l → read_clauses match (map specifier_text l) ≡ ok l
  unfolding read_clauses
  read_clauses-texts [] i = refl
  read_clauses-texts (s ∷ l) (i, rest) = rw (
    strip_id (specifier_text s) (text_no_space s i),
    text_given s,
    read_clause-text s i,
    read_clauses-texts l rest,
  )

-- For clauses whose version texts have no blank and no comma and do not begin with "=", the
-- canonical text of the set parses to the same clauses in the same order.
pub new_specifier_set-set_text :
    (match : Text → Option Groups) (l : List Specifier)
    → AreWritten match l
    → new_specifier_set match (set_text l) ≡ ok l
unfolding new_specifier_set
new_specifier_set-set_text match [] i = unfold strip split join in refl
new_specifier_set-set_text match (s ∷ l) i = rw (
  strip_id (set_text (s ∷ l)) (set_text_no_space match (s ∷ l) i),
  split-set_text match s l i,
  read_clauses-texts match (s ∷ l) i,
)

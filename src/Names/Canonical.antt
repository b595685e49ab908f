-- ===== src/Names/Canonical.antt =====
-- What a canonical name looks like, and that canonicalizing it again changes nothing.
use core_pip.Prelude.{
  ap, ◌∙◌, ℕ, ◌≡◌, refl, ◌∙◌, Bool, true, false, ◌&&◌, ◌||◌, not, [], ◌∷◌, Text, nat_beq, every,
  is_upper, lower, lower_char, has_char, arith,
}
use core_pip.Names.Defs.{is_separator, collapse, has_double_dash, substituted, canonicalize_name}
use core_pip.Names.FastPath.{canonicalize_name-eq-substituted, lower_of_no_upper, collapse_id}

-- Lower case, with single dashes for separators.
pub record IsNormal (t : Text) : Type 0 where
  pub no_upper : every (λ c. not (is_upper c)) t ≡ true
  pub no_underscore : has_char b'_' t ≡ false
  pub no_dot : has_char b'.' t ≡ false
  pub no_run : has_double_dash t ≡ false

-- `text[:1] == "-"`
abbrev starts_with_dash : Text → Bool
starts_with_dash [] = false
starts_with_dash (c ∷ t) = nat_beq c b'-'

double_dash_cons :
    (c : ℕ) (t : Text)
    → has_double_dash (c ∷ t) ≡ (nat_beq c b'-' && starts_with_dash t || has_double_dash t)
double_dash_cons c [] = ground arith
double_dash_cons c (d ∷ t) = refl

every-lower : (t : Text) → every (λ c. not (is_upper c)) (lower t) ≡ true
every-lower [] = refl
every-lower (c ∷ t) = ground (arith, every-lower t)

no_char_substituted : (b : Bool) (t : Text) → has_char b'_' (lower (collapse b t)) ≡ false
no_char_substituted b [] = refl
no_char_substituted b (c ∷ t) = ground (arith, no_char_substituted (is_separator c) t)

no_dot_substituted : (b : Bool) (t : Text) → has_char b'.' (lower (collapse b t)) ≡ false
no_dot_substituted b [] = refl
no_dot_substituted b (c ∷ t) = ground (arith, no_dot_substituted (is_separator c) t)

no_leading_dash : (t : Text) → starts_with_dash (lower (collapse true t)) ≡ false
no_leading_dash [] = refl
no_leading_dash (c ∷ t) = ground (arith, no_leading_dash t)

no_run_substituted : (b : Bool) (t : Text) → has_double_dash (lower (collapse b t)) ≡ false
no_run_substituted b [] = refl
no_run_substituted b (c ∷ t) = ground (
  arith,
  double_dash_cons (lower_char c) (lower (collapse (is_separator c) t)),
  double_dash_cons b'-' (lower (collapse (is_separator c) t)),
  no_leading_dash t,
  no_run_substituted (is_separator c) t,
)

substituted-IsNormal : (name : Text) → IsNormal (substituted name)
substituted-IsNormal name = record {
  no_upper = every-lower (collapse false name);
  no_underscore = no_char_substituted false name;
  no_dot = no_dot_substituted false name;
  no_run = no_run_substituted false name;
}

-- Every name becomes lower case, with no underscore, no dot and no two dashes in a row.
pub canonicalize_name-IsNormal : (name : Text) → IsNormal (canonicalize_name name)
canonicalize_name-IsNormal name =
    rw (canonicalize_name-eq-substituted name) (substituted-IsNormal name)

substituted_of_normal : (t : Text) → IsNormal t → substituted t ≡ t
substituted_of_normal t n =
    ap lower (collapse_id t n.no_underscore n.no_dot n.no_run) ∙ lower_of_no_upper t n.no_upper

-- Canonicalizing a canonical name changes nothing.
pub canonicalize_name_idem :
    (name : Text) → canonicalize_name (canonicalize_name name) ≡ canonicalize_name name
canonicalize_name_idem name =
    canonicalize_name-eq-substituted (canonicalize_name name)
    ∙ substituted_of_normal (canonicalize_name name) (canonicalize_name-IsNormal name)

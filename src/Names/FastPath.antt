-- ===== src/Names/FastPath.antt =====
-- The short cut of `canonicalize_name` returns what the substitution would.
use core_pip.Prelude.{
  ◌≡◌, refl, true, false, not, [], ◌∷◌, Text, every, is_upper, lower, has_char, arith,
}
use core_pip.Names.Defs.{collapse, has_double_dash, substituted, canonicalize_name}

pub lower_of_no_upper : (t : Text) → every (λ c. not (is_upper c)) t ≡ true → lower t ≡ t
lower_of_no_upper [] h = refl
lower_of_no_upper (c ∷ t) h = ground (arith, lower_of_no_upper t)

-- In a text whose only separator is the dash, with no two in a row, there is no run to collapse.
pub collapse_id :
    (t : Text)
    → has_char b'_' t ≡ false
    → has_char b'.' t ≡ false
    → has_double_dash t ≡ false
    → collapse false t ≡ t
collapse_id [] u d r = refl
collapse_id (c ∷ []) u d r = ground arith
collapse_id (c ∷ e ∷ t) u d r = ground (arith, collapse_id (e ∷ t))

-- For every name the function returns the substituted text in lower case, whether it takes the
-- short cut or not.
pub canonicalize_name-eq-substituted : (name : Text) → canonicalize_name name ≡ substituted name
unfolding canonicalize_name
canonicalize_name-eq-substituted name = ground (arith, lower_of_no_upper name, collapse_id name)

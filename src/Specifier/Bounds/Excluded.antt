-- ===== src/Specifier/Bounds/Excluded.antt =====
-- Where the bounds are narrower than the clauses: local versions.
use core_pip.Prelude.{◌≡◌, refl, true, false, Option, some, [], ◌∷◌, Text, ok, arith}
use core_pip.Version.{Version, key_ord}
use core_pip.Version.Build.{Groups}
use core_pip.Specifier.Defs.{Specifier, equal, is_local_of, contains_op, contains}
use core_pip.Specifier.Bounds.Defs.{bounds_of}
use core_pip.Specifier.Bounds.Sound.{in_upper, local_above}

-- The clause `==o`.
abbrev pub equals : Text → Version → Specifier
equals t o = record { operator = equal; version = t; parsed_version = some o; is_wildcard = false }

-- For every local version of a release that is no local version itself, the clause that pins the
-- release contains the local version, and the upper bound of the clause is below it.
pub bounds_of_local :
    (match : Text → Option Groups) (t : Text) (o v : Version)
    → is_local_of v o ≡ true
    → (contains (equals t o) v ≡ true)
      × (bounds_of match (equals t o ∷ []) ≡ ok (some (o, true), some (o, true)))
      × (in_upper (some (o, true)) v ≡ false)
unfolding contains contains_op bounds_of
bounds_of_local match t o v h =
    (ground arith, refl, ground (arith, local_above v o h, key_ord.cmp_flip v.key o.key))

-- ===== src/Tests/Versions.antt =====
-- Versions and names.
use core_pip.Prelude.{ℕ, ◌≡◌, refl, none, some, [], ◌∷◌, codes, err, lt, get_or, arith, strip}
use core_pip.Names.{canonicalize_name, substituted, canonicalize_name-eq-substituted}
use core_pip.Version.{suffix_ord}
use core_pip.Version.Build.{
  Groups, invalid_version, build, new_version, only_release, new_version-eq-matched, suffix_of,
  suffix_of_order,
}
use core_pip.Tests.Matcher.{reader, reader_plain}

-- "1.0rc2.dev3"
abbrev candidate : Groups
candidate = record (only_release (codes "1.0")) {
  pre_label = some (codes "RC");
  pre_number = some (codes "2");
  dev_label = some (codes "dev");
  dev_number = some (codes "3");
}

-- ".a1" stands before ".a1.post1", and both before ".a1.post2.dev5".
suffix_of_order_example :
    suffix_ord.cmp
      (suffix_of (some (0, 1)) (some 1) none)
      (suffix_of (some (0, 1)) (some 2) (some 5))
    ≡ lt
suffix_of_order_example =
    suffix_of_order (some (0, 1)) (some 1) none (some (0, 1)) (some 2) (some 5)
      (λ r n h. ground (arith, h)) (λ r n h. ground (arith, h))

abbrev one : ℕ → ℕ
one i = get_or (1 ∷ []) i 0

abbrev one_zero : ℕ → ℕ
one_zero i = get_or (1 ∷ 0 ∷ []) i 0

new_version-eq-matched_example :
    new_version reader (codes " 1.10 ")
    ≡ elim (reader (strip (codes " 1.10 "))) [ none ↦ err invalid_version | some g ↦ build g ]
new_version-eq-matched_example = new_version-eq-matched reader reader_plain (codes " 1.10 ")

canonicalize_name-eq-substituted_example :
    canonicalize_name (codes "Foo__Bar") ≡ substituted (codes "Foo__Bar")
canonicalize_name-eq-substituted_example = canonicalize_name-eq-substituted (codes "Foo__Bar")

-- "Zope.Interface" and "zope-interface" are one project.
zope : canonicalize_name (codes "Zope.Interface") ≡ codes "zope-interface"
unfolding canonicalize_name
zope = refl

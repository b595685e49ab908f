-- ===== src/Wheel/Macos.antt =====
-- Platforms of macOS.
use mathlib.Core.Option
use core_pip.Prelude.{
  ℕ, suc, ◌+◌, ◌-◌, ◌*◌, ◌≡◌, ◌∙◌, ap, ap₂, sym, refl, Bool, true, false, not, ◌&&◌, ◌||◌, Option,
  none, some, [], ◌∷◌, ◌++◌, Text, codes, text_ord, ◌=?◌, ◌<=?◌, =?_iff, le_of_eq, is_digit,
  isdigit, every, is_nil, has_char, nat_beq, Bool-cases, Option-cases, inl, inr, if◌then◌else◌,
  arith,
}
use core_pip.Prelude.Int.{ℤ, pos, int_ord}
use core_pip.Controls.{TextSet, has}
use core_pip.Caches.{lookup}
use core_pip.Version.Decimal.{
  int_from, int_of, str_of, str_of-digits, str_of-isdigit, int_of-str_of,
}
use core_pip.Version.Build.{strip_id, digits_no_space}
use core_pip.Wheel.Number.{read_digits, read_signed, parse_int}
use core_pip.Wheel.Defs.{split_at_most, platform_parts, is_macos}
use core_pip.Wheel.Matching.{
  macos_compatible_arches, Arches, int_pair, pair_of_ints, at_most_as_new, arch_fits, macos_matches,
  platform_matches,
}

read_digits-every :
    (b : Bool) (n : ℕ) (t : Text)
    → (b || not (is_nil t)) ≡ true
    → every is_digit t ≡ true
    → read_digits b n t ≡ some (int_from n t)
unfolding read_digits int_from
read_digits-every b n [] h k = ground (arith, h)
read_digits-every b n (c ∷ t) h k = ground (arith, read_digits-every true (n * 10 + (c - 48)) t, k)

unsigned :
    (minus plus : Bool) (x y z : Option ℤ)
    → minus ≡ false
    → plus ≡ false
    → (if minus then x else if plus then y else z) ≡ z
unsigned minus plus x y z h k = ground (arith, h, k)

read_signed-digits : (t : Text) → isdigit t ≡ true → read_signed t ≡ some (pos (int_of t))
read_signed-digits [] h = cc
read_signed-digits (c ∷ t) h =
    unsigned (nat_beq c b'-') (nat_beq c b'+') _ _ (Option.map pos (read_digits false 0 (c ∷ t)))
      (ground (arith, h)) (ground (arith, h))
    ∙ ap (Option.map pos) (read_digits-every false 0 (c ∷ t) refl h)

-- `int` reads a number back.
pub parse_int-str_of : (n : ℕ) → parse_int (str_of n) ≡ some (pos n)
unfolding parse_int
parse_int-str_of n =
    ap read_signed (strip_id (str_of n) (digits_no_space (str_of n) (str_of-digits n)))
    ∙ read_signed-digits (str_of n) (str_of-isdigit n)
    ∙ ap (λ k. some (pos k)) (int_of-str_of n)

-- The first part of a split
split_at_most-part :
    (k : ℕ) (w u : Text)
    → has_char b'_' w ≡ false
    → split_at_most b'_' (suc k) (w ++ (b'_' ∷ u)) ≡ w ∷ split_at_most b'_' k u
unfolding split_at_most
split_at_most-part k [] u h = ground arith
split_at_most-part k (c ∷ w) u h = ground (arith, split_at_most-part k w u, h)

-- No more separators are looked for.
split_at_most-rest : (w : Text) → split_at_most b'_' 0 w ≡ w ∷ []
unfolding split_at_most
split_at_most-rest [] = refl
split_at_most-rest (c ∷ w) = ground (arith, split_at_most-rest w)

digits_no_underscore : (t : Text) → every is_digit t ≡ true → has_char b'_' t ≡ false
digits_no_underscore [] h = refl
digits_no_underscore (c ∷ t) h = ground (arith, digits_no_underscore t, h)

-- "macosx_M_m_arch"
abbrev pub macos_platform : ℕ → ℕ → Text → Text
macos_platform major minor arch =
    codes "macosx" ++ (b'_' ∷ (str_of major ++ (b'_' ∷ (str_of minor ++ (b'_' ∷ arch)))))

platform_parts-three :
    (x y arch : Text)
    → has_char b'_' x ≡ false
    → has_char b'_' y ≡ false
    → platform_parts (codes "macosx" ++ (b'_' ∷ (x ++ (b'_' ∷ (y ++ (b'_' ∷ arch))))))
      ≡ codes "macosx" ∷ x ∷ y ∷ arch ∷ []
unfolding platform_parts
platform_parts-three x y arch h k =
    split_at_most-part 2 (codes "macosx") (x ++ (b'_' ∷ (y ++ (b'_' ∷ arch)))) refl
    ∙ ap (λ l. codes "macosx" ∷ l)
        (split_at_most-part 1 x (y ++ (b'_' ∷ arch)) h
          ∙ ap (λ l. x ∷ l)
              (split_at_most-part 0 y arch k ∙ ap (λ l. y ∷ l) (split_at_most-rest arch)))

platform_parts-macos :
    (major minor : ℕ) (arch : Text)
    → platform_parts (macos_platform major minor arch)
      ≡ codes "macosx" ∷ str_of major ∷ str_of minor ∷ arch ∷ []
platform_parts-macos major minor arch =
    platform_parts-three (str_of major) (str_of minor) arch
      (digits_no_underscore (str_of major) (str_of-digits major))
      (digits_no_underscore (str_of minor) (str_of-digits minor))

int_pair-str_of : (a b : ℕ) → int_pair (str_of a) (str_of b) ≡ some (pos a, pos b)
int_pair-str_of a b = rw (int_pair, parse_int-str_of a, parse_int-str_of b) refl

abbrev pub is_at_most : ℤ × ℤ → ℤ × ℤ → Bool
is_at_most a b = ◌<=?◌ {A = ℤ × ℤ} ⦃o = pair_of_ints⦄ a b

compared :
    (w r : Option (ℤ × ℤ)) (a b : ℤ × ℤ) (fits : Bool)
    → w ≡ some a
    → r ≡ some b
    → elim (at_most_as_new w r) [ none ↦ none | some false ↦ some false | some true ↦ some fits ]
      ≡ some (is_at_most a b && fits)
compared w r a b fits h k = rw (h, k) (and_of (is_at_most a b))
  where
    and_of : (x : Bool) → elim x [ false ↦ some false | true ↦ some fits ] ≡ some (x && fits)
    and_of true = refl
    and_of false = refl

macos_matches-numbers :
    (rM rm wM wm : ℕ) (r_arch w_arch : Text)
    → macos_matches
        (codes "macosx" ∷ str_of rM ∷ str_of rm ∷ r_arch ∷ [])
        (codes "macosx" ∷ str_of wM ∷ str_of wm ∷ w_arch ∷ [])
      ≡ some (is_at_most (pos wM, pos wm) (pos rM, pos rm) && arch_fits r_arch w_arch)
unfolding macos_matches
macos_matches-numbers rM rm wM wm r_arch w_arch =
    compared (int_pair (str_of wM) (str_of wm)) (int_pair (str_of rM) (str_of rm)) (pos wM, pos wm)
      (pos rM, pos rm) (arch_fits r_arch w_arch) (int_pair-str_of wM wm) (int_pair-str_of rM rm)

-- Each row of a table has its own key.
has_own :
    (a : Text) (table : Arches) (arches : TextSet)
    → every (λ row. has row.0 row.1) table ≡ true
    → lookup a table ≡ some arches
    → has a arches ≡ true
unfolding lookup
has_own a [] arches own found = cc
has_own a ((key, l) ∷ table) arches own found = elim (Bool-cases (a =? key)) [
  | inl at ↦
      let same : a ≡ key = (=?_iff a key).0 at in
      let this : l ≡ arches = ground (arith, found, at) in ground (arith, own, same, this)
  | inr other ↦ has_own a table arches (ground (arith, own)) (ground (arith, found, other))
]

every_own : every (λ row. has row.0 row.1) macos_compatible_arches ≡ true
unfolding has
every_own = refl

arch_fits_self : (arch : Text) → arch_fits arch arch ≡ true
arch_fits_self arch = elim (Option-cases (lookup arch macos_compatible_arches)) [
  | inl missing ↦ rw (missing, arch_fits) ((=?_iff arch arch).1 refl)
  | inr (arches, found) ↦
      rw (found, arch_fits) (has_own arch macos_compatible_arches arches every_own found)
]

str_of_inj : (a b : ℕ) → str_of a ≡ str_of b → a ≡ b
str_of_inj a b h = sym (int_of-str_of a) ∙ ap int_of h ∙ int_of-str_of b

same_fits :
    (major minor : ℕ) (arch : Text)
    → (is_at_most (pos major, pos minor) (pos major, pos minor) && arch_fits arch arch) ≡ true
same_fits major minor arch =
    let m : ℤ × ℤ = (pos major, pos minor) in
    ground (arith, le_of_eq ⦃o = pair_of_ints⦄ m m refl, arch_fits_self arch)

platform_matches-same : (r w : Text) → (r =? w) ≡ true → platform_matches r w ≡ some true
unfolding platform_matches
platform_matches-same r w same = rw same refl

platform_matches-distinct :
    (r w : Text)
    → (r =? w) ≡ false
    → (r =? codes "any" || w =? codes "any") ≡ false
    → (is_macos r && is_macos w) ≡ true
    → platform_matches r w ≡ macos_matches (platform_parts r) (platform_parts w)
unfolding platform_matches
platform_matches-distinct r w d a m = rw (d, a, m) refl

-- The platforms of macOS, with an architecture of any spelling: a wheel is taken exactly if its
-- version is at most that of the system, compared as a pair of numbers, and its architecture is one
-- that the architecture of the system runs, or the same where the table has none.
pub platform_matches-macos :
    (rM rm wM wm : ℕ) (r_arch w_arch : Text)
    → platform_matches (macos_platform rM rm r_arch) (macos_platform wM wm w_arch)
      ≡ some (is_at_most (pos wM, pos wm) (pos rM, pos rm) && arch_fits r_arch w_arch)
platform_matches-macos rM rm wM wm r_arch w_arch =
    let r = macos_platform rM rm r_arch in
    let w = macos_platform wM wm w_arch in
    elim (Bool-cases (r =? w)) [
      | inl same ↦
          let parts : codes "macosx" ∷ str_of rM ∷ str_of rm ∷ r_arch ∷ []
              ≡ codes "macosx" ∷ str_of wM ∷ str_of wm ∷ w_arch ∷ [] =
            sym (platform_parts-macos rM rm r_arch)
            ∙ ap platform_parts ((=?_iff r w).0 same)
            ∙ platform_parts-macos wM wm w_arch in
          let major : rM ≡ wM = str_of_inj rM wM cc in
          let minor : rm ≡ wm = str_of_inj rm wm cc in
          let arch : r_arch ≡ w_arch = cc in
          platform_matches-same r w same
          ∙ sym (rw (major, minor, arch) (ap some (same_fits wM wm w_arch)))
      | inr other ↦
          platform_matches-distinct r w other refl refl
          ∙ ap₂ macos_matches (platform_parts-macos rM rm r_arch)
              (platform_parts-macos wM wm w_arch)
          ∙ macos_matches-numbers rM rm wM wm r_arch w_arch
    ]

unread : (x y : Text) → parse_int x ≡ none → int_pair x y ≡ none
unread x y h = rw (int_pair, h) refl

macos_matches-unread :
    (r0 r_major r_minor r_arch w0 x y arch : Text)
    → parse_int x ≡ none
    → macos_matches (r0 ∷ r_major ∷ r_minor ∷ r_arch ∷ []) (w0 ∷ x ∷ y ∷ arch ∷ []) ≡ none
unfolding macos_matches
macos_matches-unread r0 r_major r_minor r_arch w0 x y arch h = rw (macos_matches, h) refl

-- For every system of macOS, a wheel whose platform has a major version that `int` does not read
-- raises the `ValueError` of `int`, and is not refused. (Neither version has an underscore.)
pub platform_matches-unread :
    (major minor : ℕ) (r_arch x y arch : Text)
    → has_char b'_' x ≡ false
    → has_char b'_' y ≡ false
    → parse_int x ≡ none
    → platform_matches
        (macos_platform major minor r_arch)
        (codes "macosx" ++ (b'_' ∷ (x ++ (b'_' ∷ (y ++ (b'_' ∷ arch))))))
      ≡ none
platform_matches-unread major minor r_arch x y arch h k unreadable =
    let r = macos_platform major minor r_arch in
    let w = codes "macosx" ++ (b'_' ∷ (x ++ (b'_' ∷ (y ++ (b'_' ∷ arch))))) in
    let parts = platform_parts-three x y arch h k in
    elim (Bool-cases (r =? w)) [
      | inl same ↦
          let both : codes "macosx" ∷ str_of major ∷ str_of minor ∷ r_arch ∷ []
              ≡ codes "macosx" ∷ x ∷ y ∷ arch ∷ [] =
            sym (platform_parts-macos major minor r_arch)
            ∙ ap platform_parts ((=?_iff r w).0 same)
            ∙ parts in
          let read : x ≡ str_of major = cc in
          let clash : none ≡ some (pos major) =
            sym unreadable ∙ ap parse_int read ∙ parse_int-str_of major in
          cc
      | inr other ↦
          platform_matches-distinct r w other refl refl
          ∙ ap₂ macos_matches (platform_parts-macos major minor r_arch) parts
          ∙ macos_matches-unread (codes "macosx") (str_of major) (str_of minor) r_arch
              (codes "macosx") x y arch unreadable
    ]

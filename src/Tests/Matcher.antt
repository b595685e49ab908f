-- ===== src/Tests/Matcher.antt =====
-- A matcher in place of the regular expression of versions: it reads a release, and a release
-- behind an epoch.
use core_pip.Prelude.{
  ℕ, ◌≡◌, ◌∙◌, sym, refl, true, Option, none, some, [], ◌∷◌, ◌++◌, Text, every, is_digit, isdigit,
  nat_beq, split, if◌then◌else◌, arith,
}
use core_pip.Version.Decimal.{str_of, str_of-digits, dotted}
use core_pip.Version.Build.{
  Groups, only_release, is_plain_iff, ReadsEpoch, epoch_text_of, epoch_not_plain,
}

-- One more character in front of the text before the mark.
abbrev before : ℕ → Option (Text × Text) → Option (Text × Text)
before c none = none
before c (some (head, rest)) = some (c ∷ head, rest)

unfoldable pub cut : Text → Option (Text × Text)
cut [] = none
cut (c ∷ t) = let rest = cut t in if nat_beq c b'!' then some ([], t) else before c rest

abbrev pub with_epoch : Option (Text × Text) → Option Groups
with_epoch none = none
with_epoch (some (e, r)) = some (record (only_release r) { epoch_text = some e })

unfoldable pub reader : Text → Option Groups
unfolding cut
reader t = if every isdigit (split b'.' t) then some (only_release t) else with_epoch (cut t)

cut-digits : (t u : Text) → every is_digit t ≡ true → cut (t ++ (b'!' ∷ u)) ≡ some (t, u)
unfolding cut
cut-digits [] u h = refl
cut-digits (c ∷ t) u h = ground (arith, cut-digits t u)

pub reader_plain :
    (t : Text) → every isdigit (split b'.' t) ≡ true → reader t ≡ some (only_release t)
reader_plain t h = unfold reader in rw h

pub reader-ReadsEpoch : ReadsEpoch reader
reader-ReadsEpoch e n r =
    unfold reader in
    rw (
      sym (is_plain_iff (epoch_text_of e (n ∷ r))) ∙ epoch_not_plain e n r,
      cut-digits (str_of e) (dotted (n ∷ r)) (str_of-digits e),
    )

-- ===== src/Version/Marked.antt =====
-- The spelling of a prerelease shows that it is one.
use mathlib.Core.Bool.{false≢true}
use core_pip.Prelude.{
  ℕ, ◌≡◌, ◌∙◌, sym, ap, refl, Bool, true, false, not, ◌&&◌, ◌||◌, List, [], ◌∷◌, ◌++◌, map, Text,
  codes, every, is_digit, nat_beq, is_nil, join, ◌=?◌, =?_iff, Bool-cases, inl, inr, if◌then◌else◌,
  arith,
}
use core_pip.Prelude.Int.{ℤ, pos, negsuc, int_ord}
use core_pip.Version.Defs.{Suffix, Version, final_suffix, suffix_is_prerelease, is_prerelease}
use core_pip.Version.Order.{suffix_ord}
use core_pip.Version.Decimal.{str_of, str_of-digits, dotted}
use core_pip.Version.Display.{pre_text, segment_text, suffix_text, public}

-- "a", "b", "rc" and ".dev" have one of these letters, and ".post" has none.
abbrev is_mark : ℕ → Bool
is_mark c = nat_beq c b'a' || nat_beq c b'b' || nat_beq c b'c' || nat_beq c b'd'

-- One of the letters stands before the local label.
abbrev has_mark : Text → Bool
has_mark [] = false
has_mark (c ∷ t) = not (nat_beq c b'+') && (is_mark c || has_mark t)

abbrev is_clean : ℕ → Bool
is_clean c = not (nat_beq c b'+') && not (is_mark c)

has_mark-clean : (u t : Text) → every is_clean u ≡ true → has_mark (u ++ t) ≡ has_mark t
has_mark-clean [] t h = refl
has_mark-clean (c ∷ u) t h = ground (arith, has_mark-clean u t)

has_mark-left : (u t : Text) → has_mark u ≡ true → has_mark (u ++ t) ≡ true
has_mark-left [] t h = cc
has_mark-left (c ∷ u) t h = ground (arith, has_mark-left u t)

clean-append :
    (u t : Text)
    → every is_clean u ≡ true
    → every is_clean t ≡ true
    → every is_clean (u ++ t) ≡ true
clean-append [] t h k = k
clean-append (c ∷ u) t h k = ground (arith, clean-append u t)

clean_digits : (u : Text) → every is_digit u ≡ true → every is_clean u ≡ true
clean_digits [] h = refl
clean_digits (c ∷ u) h = ground (arith, clean_digits u)

clean-str_of : (n : ℕ) → every is_clean (str_of n) ≡ true
clean-str_of n = clean_digits (str_of n) (str_of-digits n)

clean-dotted : (r : List ℕ) → every is_clean (dotted r) ≡ true
unfolding join
clean-dotted [] = refl
clean-dotted (n ∷ []) = clean-str_of n
clean-dotted (n ∷ m ∷ r) =
    clean-append (str_of n) (b'.' ∷ dotted (m ∷ r)) (clean-str_of n) (clean-dotted (m ∷ r))

-- A prerelease of a version that was made has a rank of the table or a development number.
abbrev is_pre_rank : ℤ → Bool
is_pre_rank (negsuc n) = false
is_pre_rank (pos r) = nat_beq r 0 || nat_beq r 1 || nat_beq r 2

abbrev pub is_marked : Suffix → Bool
is_marked s = is_pre_rank s.pre_rank || nat_beq s.dev_rank 0

abbrev post_text : Suffix → Text
post_text s = if nat_beq s.post_rank 0 then [] else codes ".post" ++ str_of s.post_number

abbrev dev_text : Suffix → Text
dev_text s = if nat_beq s.dev_rank 0 then codes ".dev" ++ str_of s.dev_number else []

clean-post :
    (b : Bool) (n : ℕ) → every is_clean (if b then [] else codes ".post" ++ str_of n) ≡ true
clean-post true n = refl
clean-post false n = clean-append (codes ".post") (str_of n) refl (clean-str_of n)

marked_pre : (rank : ℤ) (n : ℕ) → is_pre_rank rank ≡ true → has_mark (pre_text rank n) ≡ true
marked_pre (negsuc r) n h = cc
marked_pre (pos r) n h = ground arith

unmarked_pre : (rank : ℤ) (n : ℕ) → is_pre_rank rank ≡ false → pre_text rank n ≡ []
unmarked_pre (negsuc r) n h = refl
unmarked_pre (pos r) n h = ground arith

marked_suffix : (s : Suffix) → is_marked s ≡ true → has_mark (suffix_text s) ≡ true
marked_suffix s h = elim (Bool-cases (is_pre_rank s.pre_rank)) [
  | inl e ↦
      has_mark-left (pre_text s.pre_rank s.pre_number) (post_text s ++ dev_text s)
        (marked_pre s.pre_rank s.pre_number e)
  | inr e ↦
      ap (λ t. has_mark (t ++ (post_text s ++ dev_text s))) (unmarked_pre s.pre_rank s.pre_number e)
      ∙ has_mark-clean (post_text s) (dev_text s) (clean-post (nat_beq s.post_rank 0) s.post_number)
      ∙ dev (nat_beq s.dev_rank 0) (ground (arith, h, e))
]
  where
    dev :
        (b : Bool)
        → b ≡ true
        → has_mark (if b then codes ".dev" ++ str_of s.dev_number else []) ≡ true
    dev true h = refl
    dev false h = cc

clean-dev :
    (b : Bool) (n : ℕ)
    → b ≡ false
    → every is_clean (if b then codes ".dev" ++ str_of n else []) ≡ true
clean-dev true n h = cc
clean-dev false n h = refl

clean-final : (s : Suffix) → suffix_is_prerelease s ≡ false → every is_clean (suffix_text s) ≡ true
clean-final s h =
    let rank : s.pre_rank ≡ pos 3 = (=?_iff s.pre_rank (pos 3)).0 (ground (arith, h)) in
    let released : nat_beq s.dev_rank 0 ≡ false = ground (arith, h) in
    ap (λ r. every is_clean (pre_text r s.pre_number ++ (post_text s ++ dev_text s))) rank
    ∙ clean-append (post_text s) (dev_text s) (clean-post (nat_beq s.post_rank 0) s.post_number)
        (clean-dev (nat_beq s.dev_rank 0) s.dev_number released)

clean-epoch : (b : Bool) (e : ℕ) → every is_clean (if b then [] else str_of e ++ codes "!") ≡ true
clean-epoch true e = refl
clean-epoch false e = clean-append (str_of e) (codes "!") (clean-str_of e) refl

unmarked_local : (b : Bool) (t : Text) → has_mark (if b then [] else codes "+" ++ t) ≡ false
unmarked_local true t = refl
unmarked_local false t = refl

abbrev tail_text : Version → Text
tail_text v =
    (if v.suffix =? final_suffix then [] else suffix_text v.suffix)
    ++ (if is_nil v.local then [] else codes "+" ++ join b'.' (map segment_text v.local))

has_mark-public : (v : Version) → has_mark (public v) ≡ has_mark (tail_text v)
unfolding public
has_mark-public v =
    has_mark-clean (if nat_beq v.epoch 0 then [] else str_of v.epoch ++ codes "!")
      (dotted v.release ++ tail_text v) (clean-epoch (nat_beq v.epoch 0) v.epoch)
    ∙ has_mark-clean (dotted v.release) (tail_text v) (clean-dotted v.release)

pub has_mark-final : (v : Version) → is_prerelease v ≡ false → has_mark (public v) ≡ false
unfolding is_prerelease
has_mark-final v h =
    has_mark-public v
    ∙ has_mark-clean (if v.suffix =? final_suffix then [] else suffix_text v.suffix) _
        (none_or (v.suffix =? final_suffix))
    ∙ unmarked_local (is_nil v.local) (join b'.' (map segment_text v.local))
  where
    none_or : (b : Bool) → every is_clean (if b then [] else suffix_text v.suffix) ≡ true
    none_or true = refl
    none_or false = clean-final v.suffix h

not_final : (s : Suffix) → is_marked s ≡ true → (s =? final_suffix) ≡ false
not_final s h = elim (Bool-cases (s =? final_suffix)) [
  | inl e ↦ absurd (false≢true (ap is_marked (sym ((=?_iff s final_suffix).0 e)) ∙ h))
  | inr e ↦ e
]

pub has_mark-marked : (v : Version) → is_marked v.suffix ≡ true → has_mark (public v) ≡ true
has_mark-marked v h =
    has_mark-public v
    ∙ ap
        (λ b. has_mark (
          (if b then [] else suffix_text v.suffix)
          ++ (if is_nil v.local then [] else codes "+" ++ join b'.' (map segment_text v.local))))
        (not_final v.suffix h)
    ∙ has_mark-left (suffix_text v.suffix) _ (marked_suffix v.suffix h)

-- A version that is spelled like a final one is final.
pub final-public :
    (v w : Version)
    → (is_prerelease v ≡ true → is_marked v.suffix ≡ true)
    → public v ≡ public w
    → is_prerelease w ≡ false
    → is_prerelease v ≡ false
final-public v w made same final = elim (Bool-cases (is_prerelease v)) [
  | inl e ↦ absurd (
      false≢true
        (sym (has_mark-final w final) ∙ ap has_mark (sym same) ∙ has_mark-marked v (made e)))
  | inr e ↦ e
]

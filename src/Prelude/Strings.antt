-- ===== src/Prelude/Strings.antt =====
-- Python's `str` as the list of its code points, and the methods of it that the program calls.
-- Letters, digits and blanks are those of ASCII.
use Prim.Native.Nat.{ℕ, ◌+◌}
use Prim.Native.Char.{code}
use Prim.Native.String.{String}
use mathlib.Core.Bool.{Bool, true, false, not, ◌&&◌, ◌||◌}
use mathlib.Core.List.{List, [], ◌∷◌, ◌++◌, map, reverse}
use mathlib.Core.Option.{Option, none, some}
use core_pip.Prelude.Tests.{leb, nat_beq, if◌then◌else◌}
use core_pip.Prelude.Order.{Ord, nat_ord, list_ord}
use core_pip.Prelude.Lists.{every, some_of, is_nil}

abbrev pub Text : Type 0
Text = List ℕ

instance abbrev pub text_ord : Ord Text
text_ord = list_ord nat_ord

-- A literal of the source.
abbrev pub codes : String → Text
codes String.[] = []
codes (String.◌∷◌ c s) = code c ∷ codes s

abbrev pub is_digit : ℕ → Bool
is_digit c = leb b'0' c && leb c b'9'

abbrev pub is_upper : ℕ → Bool
is_upper c = leb b'A' c && leb c b'Z'

abbrev pub is_lower : ℕ → Bool
is_lower c = leb b'a' c && leb c b'z'

abbrev pub is_space : ℕ → Bool
is_space c = leb 9 c && leb c 13 || leb 28 c && leb c 32

abbrev pub lower_char : ℕ → ℕ
lower_char c = if is_upper c then c + 32 else c

-- `text.lower()`
abbrev pub lower : Text → Text
lower = map lower_char

-- `text.islower()`: a cased character, and no upper-case one
abbrev pub islower : Text → Bool
islower t = some_of is_lower t && every (λ c. not (is_upper c)) t

-- `text.isdecimal()` and `text.isdigit()`
abbrev pub isdigit : Text → Bool
isdigit t = not (is_nil t) && every is_digit t

abbrev pub has_char : ℕ → Text → Bool
has_char c t = some_of (nat_beq c) t

abbrev pub lstrip : Text → Text
lstrip [] = []
lstrip (c ∷ t) = let rest = lstrip t in if is_space c then rest else c ∷ t

-- `text.strip()`
unfoldable pub strip : Text → Text
strip t = reverse (lstrip (reverse (lstrip t)))

-- `text.startswith(prefix)`, and the rest behind the prefix
abbrev pub strip_prefix : Text → Text → Option Text
strip_prefix [] t = some t
strip_prefix (p ∷ ps) [] = none
strip_prefix (p ∷ ps) (c ∷ t) = if nat_beq p c then strip_prefix ps t else none

abbrev pub starts_with : Text → Text → Bool
starts_with p t = elim (strip_prefix p t) [ none ↦ false | some _ ↦ true ]

-- `text.endswith(suffix)`
unfoldable pub ends_with : Text → Text → Bool
ends_with p t = starts_with (reverse p) (reverse t)

-- One more character in front of the first part of a split.
abbrev pub push_first : ℕ → List Text → List Text
push_first c [] = (c ∷ []) ∷ []
push_first c (w ∷ ws) = (c ∷ w) ∷ ws

-- `text.split(sep)` for a separator of one character
unfoldable pub split : ℕ → Text → List Text
split sep [] = [] ∷ []
split sep (c ∷ t) = let rest = split sep t in if nat_beq c sep then [] ∷ rest else push_first c rest

-- `sep.join(parts)` for a separator of one character
unfoldable pub join : ℕ → List Text → Text
join sep [] = []
join sep (w ∷ []) = w
join sep (w ∷ v ∷ ws) = w ++ (sep ∷ join sep (v ∷ ws))

abbrev pub put_front : ℕ → Option (Text × Text) → Option (Text × Text)
put_front c none = none
put_front c (some (u, v)) = some (c ∷ u, v)

-- `text.split(sep, 1)` and `text.partition(sep)` of a text that has the separator
abbrev pub partition : ℕ → Text → Option (Text × Text)
partition sep [] = none
partition sep (c ∷ t) =
    let rest = partition sep t in if nat_beq sep c then some ([], t) else put_front c rest

-- `text.rsplit(sep, 1)` of a text that has the separator
abbrev pub rpartition : ℕ → Text → Option (Text × Text)
rpartition sep t = elim (partition sep (reverse t)) [
  | none ↦ none
  | some (u, v) ↦ some (reverse v, reverse u)
]

-- ===== src/Controls/Sets.antt =====
-- A Python `set` of texts, of which the program asks membership, and the entries of an option.
use core_pip.Prelude.{
  ◌≡◌, refl, Bool, false, not, ◌&&◌, ◌||◌, List, [], ◌∷◌, map, keep, Text, codes, text_ord, ◌=?◌,
  =?_iff, strip, split, is_nil, if◌then◌else◌, arith,
}
use core_pip.Names.{canonicalize_name}

abbrev pub TextSet : Type 0
TextSet = List Text

-- `item in items`
unfoldable pub has : Text → TextSet → Bool
has t [] = false
has t (u ∷ s) = t =? u || has t s

-- `items.add(item)`
unfoldable pub add : Text → TextSet → TextSet
add t s = if has t s then s else t ∷ s

-- `items.discard(item)`
unfoldable pub discard : Text → TextSet → TextSet
discard t s = keep (λ u. not (t =? u)) s

pub has-add : (t u : Text) (s : TextSet) → has u (add t s) ≡ (u =? t || has u s)
unfolding has add
has-add t u s = ground (arith, =?_iff u t)

pub has-discard : (t u : Text) (s : TextSet) → has u (discard t s) ≡ (not (u =? t) && has u s)
unfolding has discard
has-discard t u [] = ground arith
has-discard t u (w ∷ s) = ground (arith, has-discard t u s, =?_iff t w, =?_iff u w, =?_iff u t)

pub has-nil : (t : Text) → has t [] ≡ false
unfolding has
has-nil t = refl

-- `[item.strip() for item in value.split(",") if item.strip()]`
abbrev pub entries_of : Text → List Text
entries_of value = keep (λ t. not (is_nil t)) (map strip (split b',' value))

abbrev pub all_text : Text
all_text = codes ":all:"

abbrev pub none_text : Text
none_text = codes ":none:"

-- The entry, canonical unless it is one of the two sentinels
abbrev pub normalized_entry : Text → Text
normalized_entry entry =
    if entry =? all_text || entry =? none_text then entry else canonicalize_name entry

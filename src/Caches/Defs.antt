-- ===== src/Caches/Defs.antt =====
-- A `dict` that caches, and `bounded_put`.
use core_pip.Prelude.{ℕ, Option, none, some, List, [], ◌∷◌, length, leb, Ord, ◌=?◌, if◌then◌else◌}

-- The entries of a dict. Its order is never read.
abbrev pub Table : Type 0 → Type 0 → Type 0
Table K V = List (K × V)

module _ {K V : Type 0} ⦃o : Ord K⦄ where
  -- `table.get(key)`
  unfoldable pub lookup : K → Table K V → Option V
  lookup k [] = none
  lookup k ((j, v) ∷ t) = if k =? j then some v else lookup k t

  -- `table[key] = value`
  unfoldable pub insert : K → V → Table K V → Table K V
  insert k v [] = (k, v) ∷ []
  insert k v ((j, w) ∷ t) = if k =? j then (j, v) ∷ t else (j, w) ∷ insert k v t

  -- `table.clear()` once the table is full
  abbrev pub swept : ℕ → Table K V → Table K V
  swept limit t = if leb limit (length t) then [] else t

  unfoldable pub bounded_put : ℕ → K → V → Table K V → Table K V
  bounded_put limit k v t = insert k v (swept limit t)

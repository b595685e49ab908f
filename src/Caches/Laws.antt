-- ===== src/Caches/Laws.antt =====
-- What a bounded table holds.
use core_pip.Prelude.{
  ℕ, ◌≤◌, ◌<◌, ◌+◌, ◌≡◌, refl, some, [], ◌∷◌, length, Ord, ◌=?◌, =?_iff, if◌then◌else◌, arith,
}
use core_pip.Caches.Defs.{Table, lookup, insert, bounded_put}

module _ {K V : Type 0} ⦃o : Ord K⦄ where
  pub lookup-insert :
      (k j : K) (v : V) (t : Table K V)
      → lookup j (insert k v t) ≡ (if j =? k then some v else lookup j t)
  unfolding lookup insert
  lookup-insert k j v [] = refl
  lookup-insert k j v ((i, w) ∷ t) =
      ground (arith, =?_iff k i, =?_iff j i, =?_iff j k, lookup-insert k j v t)

  pub length-insert : (k : K) (v : V) (t : Table K V) → length (insert k v t) ≤ length t + 1
  unfolding insert
  length-insert k v [] = omega arith
  length-insert k v ((i, w) ∷ t) = ground (arith, length-insert k v t)

  -- A put never takes a table past its limit.
  pub length-bounded_put :
      (limit : ℕ) (k : K) (v : V) (t : Table K V)
      → 0 < limit
      → length t ≤ limit
      → length (bounded_put limit k v t) ≤ limit
  unfolding bounded_put
  length-bounded_put limit k v t h m = ground (arith, length-insert k v t, length-insert k v [])

  -- A put answers for its own key, and for another key at most what the table answered before.
  pub lookup-bounded_put :
      (limit : ℕ) (k j : K) (v w : V) (t : Table K V)
      → lookup j (bounded_put limit k v t) ≡ some w
      → (if j =? k then some v else lookup j t) ≡ some w
  unfolding bounded_put lookup
  lookup-bounded_put limit k j v w t h =
      ground (arith, lookup-insert k j v t, lookup-insert k j v [])

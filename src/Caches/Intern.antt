-- ===== src/Caches/Intern.antt =====
-- The intern tables of src/cpip/core/versions.py and src/cpip/core/packaging.py: a constructor
-- looks its text up, and on a miss builds the value and puts it, unless building it raises.
use core_pip.Prelude.{
  ℕ, ◌≤◌, ◌<◌, ◌≡◌, sym, refl, none, some, List, [], ◌∷◌, map, length, Text, text_ord, =?_iff,
  Result, ok, err, arith, Option-cases, inl, inr,
}
use core_pip.Caches.Defs.{Table, lookup, bounded_put}
use core_pip.Caches.Laws.{length-bounded_put, lookup-bounded_put}

module _ {E V : Type 0} (limit : ℕ) (make : Text → Result E V) where
  abbrev remember : Text → Result E V → Table Text V → Result E V × Table Text V
  remember value (err e) t = (err e, t)
  remember value (ok v) t = (ok v, bounded_put limit value v t)

  -- `cls(value)` with the table before and after
  unfoldable pub interned : Text → Table Text V → Result E V × Table Text V
  interned value t = elim (lookup value t) [
    | some v ↦ (ok v, t)
    | none ↦ remember value (make value) t
  ]

  -- Calls in a row, with the table that they leave.
  abbrev pub interned_all : List Text → Table Text V → List (Result E V) × Table Text V
  interned_all [] t = ([], t)
  interned_all (value ∷ rest) t =
      let (r, t') = interned value t in let (rs, t'') = interned_all rest t' in (r ∷ rs, t'')

  -- The table is within its limit, and holds for a text what would be built for it.
  pub record IsIntern (t : Table Text V) : Type 0 where
    pub bounded : length t ≤ limit
    pub faithful : (value : Text) (v : V) → lookup value t ≡ some v → make value ≡ ok v

  remember_faithful :
      (value : Text) (v : V) (t : Table Text V)
      → make value ≡ ok v
      → ((u : Text) (w : V) → lookup u t ≡ some w → make u ≡ ok w)
      → (u : Text) (w : V) → lookup u (bounded_put limit value v t) ≡ some w
      → make u ≡ ok w
  remember_faithful value v t made h u w found =
      ground (arith, h u w, lookup-bounded_put limit value u v w t found, =?_iff u value)

  pub interned_lem :
      (value : Text) (t : Table Text V)
      → 0 < limit
      → IsIntern t
      → ((interned value t).0 ≡ make value) × IsIntern (interned value t).1
  unfolding interned
  interned_lem value t pos i = elim (Option-cases (lookup value t)) [
    | inl missed ↦ rw (missed, interned) (built (make value) refl)
    | inr (v, found) ↦ rw (found, interned) (sym (i.faithful value v found), i)
  ]
    where
      built :
          (r : Result E V)
          → make value ≡ r
          → ((remember value (make value) t).0 ≡ make value)
            × IsIntern (remember value (make value) t).1
      built (err e) made = rw (made, remember) (refl, i)
      built (ok v) made =
          rw (made, remember)
            (
              refl,
              record {
                bounded = length-bounded_put limit value v t pos i.bounded;
                faithful = remember_faithful value v t made i.faithful;
              },
            )

  -- Whatever texts are asked for, in whatever order and however often the table is swept: each
  -- call gives what the constructor without a table gives, and the table stays within its limit.
  pub interned_all_lem :
      (values : List Text) (t : Table Text V)
      → 0 < limit
      → IsIntern t
      → ((interned_all values t).0 ≡ map make values) × IsIntern (interned_all values t).1
  interned_all_lem [] t pos i = (refl, i)
  interned_all_lem (value ∷ rest) t pos i =
      let (same, kept) = interned_lem value t pos i in
      let (later, last) = interned_all_lem rest (interned value t).1 pos kept in (cc, last)

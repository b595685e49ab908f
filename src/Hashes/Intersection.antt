-- ===== src/Hashes/Intersection.antt =====
-- What the intersection allows.
use core_pip.Prelude.{
  sym, ◌≡◌, ◌∙◌, ap, refl, Bool, true, false, ◌&&◌, ◌||◌, none, some, List, [], ◌∷◌, map, keep,
  every, lower, is_nil, Text, text_ord, ◌=?◌, =?_iff, Option-cases, inl, inr, arith,
}
use core_pip.Caches.{Table, lookup}
use core_pip.Controls.{has}
use core_pip.Hashes.Defs.{
  Hashes, insert_sorted, sorted, map_entries, in_lower_case, hashes_of, digests_for,
  is_hash_allowed, intersection,
}

has-insert_sorted : (x t : Text) (l : List Text) → has x (insert_sorted t l) ≡ (x =? t || has x l)
unfolding has
has-insert_sorted x t [] = refl
has-insert_sorted x t (u ∷ l) = ground (arith, has-insert_sorted x t l)

pub has-sorted : (x : Text) (l : List Text) → has x (sorted l) ≡ has x l
unfolding has
has-sorted x [] = refl
has-sorted x (t ∷ l) = ground (arith, has-insert_sorted x t (sorted l), has-sorted x l)

has-keep : (p : Text → Bool) (x : Text) (l : List Text) → has x (keep p l) ≡ (has x l && p x)
unfolding has
has-keep p x [] = refl
has-keep p x (u ∷ l) = ground (arith, has-keep p x l, =?_iff x u)

abbrev is_low : Text → Bool
is_low t = lower t =? t

every-insert_sorted :
    (p : Text → Bool) (t : Text) (l : List Text) → every p (insert_sorted t l) ≡ (p t && every p l)
every-insert_sorted p t [] = refl
every-insert_sorted p t (u ∷ l) = ground (arith, every-insert_sorted p t l)

pub every-sorted : (p : Text → Bool) (l : List Text) → every p (sorted l) ≡ every p l
every-sorted p [] = refl
every-sorted p (t ∷ l) = every-insert_sorted p t (sorted l) ∙ ap (λ b. p t && b) (every-sorted p l)

every_kept : (p q : Text → Bool) (l : List Text) → every p l ≡ true → every p (keep q l) ≡ true
every_kept p q [] h = refl
every_kept p q (t ∷ l) h = ground (arith, every_kept p q l)

lower_idem : (t : Text) → lower (lower t) ≡ lower t
lower_idem [] = refl
lower_idem (c ∷ t) = ground (arith, lower_idem t)

every-map-lower : (l : List Text) → every is_low (map lower l) ≡ true
every-map-lower [] = refl
every-map-lower (t ∷ l) =
    ground (arith, every-map-lower l, (=?_iff (lower (lower t)) (lower t)).1 (lower_idem t))

map-lower_id : (l : List Text) → every is_low l ≡ true → map lower l ≡ l
map-lower_id [] h = refl
map-lower_id (t ∷ l) h = ground (arith, map-lower_id l, =?_iff (lower t) t)

-- Digests in lower case stay as they are.
has-in_lower_case :
    (x : Text) (l : List Text) → every is_low l ≡ true → has x (in_lower_case l) ≡ has x l
has-in_lower_case x l h =
    ap (has x) (map-lower_id (sorted l) (every-sorted is_low l ∙ h)) ∙ has-sorted x l

lookup-map_entries :
    (f : Text → List Text → List Text) (n : Text) (t : Table Text (List Text))
    → lookup n (map_entries f t) ≡ elim (lookup n t) [ none ↦ none | some v ↦ some (f n v) ]
unfolding lookup
lookup-map_entries f n [] = refl
lookup-map_entries f n ((k, v) ∷ t) = ground (arith, lookup-map_entries f n t, =?_iff n k)

digests_for-hashes_of :
    (n : Text) (t : Table Text (List Text))
    → digests_for (hashes_of t) n ≡ elim (lookup n t) [ none ↦ [] | some v ↦ in_lower_case v ]
unfolding hashes_of
digests_for-hashes_of n t = ground (arith, lookup-map_entries (λ algorithm l. in_lower_case l) n t)

-- The digests that are left of one algorithm.
kept_digests :
    (p : Text → Bool) (x : Text) (v : List Text)
    → has x (in_lower_case (keep p (in_lower_case v))) ≡ (has x (in_lower_case v) && p x)
kept_digests p x v =
    has-in_lower_case x (keep p (in_lower_case v))
      (every_kept is_low p (in_lower_case v) (every-map-lower (sorted v)))
    ∙ has-keep p x (in_lower_case v)

abbrev both : Hashes → Table Text (List Text) → Table Text (List Text)
both h = map_entries (λ algorithm digests. keep (λ d. has d (digests_for h algorithm)) digests)

lookup-both :
    (h : Hashes) (t : Table Text (List Text)) (n : Text)
    → lookup n (both h (hashes_of t).allowed_internal) ≡ elim (lookup n t) [
      | none ↦ none
      | some v ↦ some (keep (λ d. has d (digests_for h n)) (in_lower_case v))
    ]
unfolding hashes_of
lookup-both h t n = ground (
  arith,
  lookup-map_entries (λ algorithm l. in_lower_case l) n t,
  lookup-map_entries (λ algorithm l. keep (λ d. has d (digests_for h algorithm)) l) n
      (map_entries (λ algorithm l. in_lower_case l) t),
)

and_comm : (a b : Bool) → (a && b) ≡ (b && a)
and_comm a b = ground arith

and_false : (a b : Bool) → b ≡ false → false ≡ (a && b)
and_false a b h = ground arith

has-nil : (x : Text) → has x [] ≡ false
unfolding has
has-nil x = refl

digests_for-both :
    (h : Hashes) (t : Table Text (List Text)) (n x : Text)
    → has x (digests_for (hashes_of (both h (hashes_of t).allowed_internal)) n)
      ≡ (has x (digests_for h n) && has x (digests_for (hashes_of t) n))
digests_for-both h t n x =
    let p : Text → Bool = λ d. has d (digests_for h n) in
    let kept = both h (hashes_of t).allowed_internal in
    elim (Option-cases (lookup n t)) [
      | inl e ↦
          let left : digests_for (hashes_of kept) n ≡ [] =
            digests_for-hashes_of n kept ∙ rw (lookup-both h t n, e) in
          let right : digests_for (hashes_of t) n ≡ [] = digests_for-hashes_of n t ∙ rw e in
          ap (has x) left
          ∙ has-nil x
          ∙ and_false (has x (digests_for h n)) _ (ap (has x) right ∙ has-nil x)
      | inr (v, e) ↦
          let left : digests_for (hashes_of kept) n ≡ in_lower_case (keep p (in_lower_case v)) =
            digests_for-hashes_of n kept ∙ rw (lookup-both h t n, e) in
          let right : digests_for (hashes_of t) n ≡ in_lower_case v =
            digests_for-hashes_of n t ∙ rw e in
          ap (has x) left
          ∙ kept_digests p x v
          ∙ and_comm (has x (in_lower_case v)) (p x)
          ∙ ap (λ l. p x && has x l) (sym right)
    ]

-- For any two collections that each name an algorithm, the intersection allows a digest, in
-- whatever case it is given, exactly if both allow it.
pub intersection_lem :
    (s t : Table Text (List Text)) (name hex : Text)
    → is_nil s ≡ false
    → is_nil t ≡ false
    → is_hash_allowed (intersection (hashes_of s) (hashes_of t)) name hex
      ≡ (is_hash_allowed (hashes_of s) name hex && is_hash_allowed (hashes_of t) name hex)
unfolding is_hash_allowed intersection hashes_of
intersection_lem [] t name hex given_s given_t = cc
intersection_lem ((k, v) ∷ s) [] name hex given_s given_t = cc
intersection_lem ((k, v) ∷ s) ((j, w) ∷ t) name hex given_s given_t =
    digests_for-both (hashes_of ((k, v) ∷ s)) ((j, w) ∷ t) name (lower hex)

-- ===== src/SpecifierSet/Pinned.antt =====
-- What a pinned set admits.
use mathlib.Core.Bool.{false≢true}
use core_pip.Prelude.{
  ◌≡◌, ◌∙◌, sym, not, Option-cases, Bool-cases, ◌⊎◌, inl, inr, Bool, true, false, ◌&&◌, ◌||◌, List,
  [], ◌∷◌, text_ord, =?_iff, every, nat_beq_iff, arith,
}
use core_pip.Version.{Version, key_ord, suffix_ord, public}
use core_pip.Specifier.{Specifier, Operator, equal, arbitrary, contains_op}
use core_pip.Specifier
use core_pip.SpecifierSet.Defs.{is_pinned, pins, is_equal, is_arbitrary}

-- Two versions with the same epoch, release and suffix; their local labels may differ.
pub record IsSameRelease (v w : Version) : Type 0 where
  pub epochs : v.epoch ≡ w.epoch
  pub releases : v.normalized ≡ w.normalized
  pub suffixes : v.suffix ≡ w.suffix

pins_op :
    (op : Operator) (wildcard : Bool) (v o : Version)
    → ((is_equal op || is_arbitrary op) && not wildcard) ≡ true
    → contains_op op wildcard v o ≡ true
    → IsSameRelease v o
unfolding contains_op
pins_op equal false v o p h = record {
  epochs = ground (arith, =?_iff v.key o.key, nat_beq_iff v.epoch o.epoch);
  releases = ground (arith, =?_iff v.key o.key, =?_iff v.normalized o.normalized);
  suffixes = ground (arith, =?_iff v.key o.key, =?_iff v.suffix o.suffix);
}
pins_op op wildcard v o p h = absurd (ground arith)

same_release : (v w o : Version) → IsSameRelease v o → IsSameRelease w o → IsSameRelease v w
same_release v w o a b = record {
  epochs = a.epochs ∙ sym b.epochs;
  releases = a.releases ∙ sym b.releases;
  suffixes = a.suffixes ∙ sym b.suffixes;
}

pinned_by :
    (s : Specifier) (v w : Version)
    → pins s ≡ true
    → Specifier.contains s v ≡ true
    → Specifier.contains s w ≡ true
    → IsSameRelease v w ⊎ (public v ≡ public w)
unfolding Specifier.contains
pinned_by s v w p hv hw = elim (Option-cases s.parsed_version) [
  | inl absent ↦
      let at_v = rw absent at hv in
      let at_w = rw absent at hw in
      inr ((=?_iff (public v) s.version).0 at_v ∙ sym ((=?_iff (public w) s.version).0 at_w))
  | inr (o, parsed) ↦
      let at_v = rw parsed at hv in
      let at_w = rw parsed at hw in
      inl (
        same_release v w o (pins_op s.operator s.is_wildcard v o p at_v)
          (pins_op s.operator s.is_wildcard w o p at_w))
]

-- All versions that a pinned set contains are one release: they agree in epoch, release and
-- suffix, so at most in their local labels they differ, or they have one spelling.
pub is_pinned_lem :
    (l : List Specifier) (v w : Version)
    → is_pinned l ≡ true
    → every (λ s. Specifier.contains s v) l ≡ true
    → every (λ s. Specifier.contains s w) l ≡ true
    → IsSameRelease v w ⊎ (public v ≡ public w)
is_pinned_lem [] v w p hv hw = absurd (false≢true p)
is_pinned_lem (s ∷ l) v w p hv hw = elim (Bool-cases (pins s)) [
  | inl here ↦ pinned_by s v w here (ground arith) (ground arith)
  | inr there ↦ is_pinned_lem l v w (ground arith) (ground arith) (ground arith)
]

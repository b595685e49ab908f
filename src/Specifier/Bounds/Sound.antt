-- ===== src/Specifier/Bounds/Sound.antt =====
-- What the clauses contain lies between the bounds.
use core_pip.Prelude.{
  ◌≡◌, refl, Bool, true, false, not, ◌&&◌, Option, none, some, List, [], ◌∷◌, Text, every, is_nil,
  nat_beq_iff, Bool-cases, inl, inr, =?_iff, text_ord, ◌<?◌, ◌<=?◌, lt→le, le_of_eq, list_cmp-eq,
  nat_ord, Result, ok, if◌then◌else◌, arith,
}
use core_pip.Version.{Version, key_ord, suffix_ord}
use core_pip.Version.Build.{Groups, VersionError, ReadsEpoch}
use core_pip.Specifier.Defs.{
  Operator, arbitrary, equal, not_equal, at_least, at_most, greater, less, compatible, Specifier,
  is_local_of, contains_op, contains,
}
use core_pip.Specifier.Keys.{IsVersion}
use core_pip.Specifier.Bounds.Defs.{
  Bound, raise_lower, cut_upper, gives_lower, gives_upper, is_greater, is_equal_or_at_most,
  upper_version, add_bounds, bounds_step, bounds_loop, bounds_of,
}
use core_pip.Specifier.Bounds.Compatible.{
  upper_of, compatible_upper_bound_lem, prefix_matches_below,
}

abbrev pub above : Version → Bool → Version → Bool
above b inclusive v = if inclusive then b.key <=? v.key else b.key <? v.key

abbrev pub below : Version → Bool → Version → Bool
below b inclusive v = if inclusive then v.key <=? b.key else v.key <? b.key

-- A version is within a bound.
abbrev pub in_lower : Bound → Version → Bool
in_lower none v = true
in_lower (some (b, i)) v = above b i v

abbrev pub in_upper : Bound → Version → Bool
in_upper none v = true
in_upper (some (b, i)) v = below b i v

-- The versions that the clauses name were made by `Version`.
abbrev pub IsParsed : Option Version → Type 0
IsParsed none = Unit {0}
IsParsed (some o) = IsVersion o

abbrev pub AreVersions : List Specifier → Type 0
AreVersions [] = Unit {0}
AreVersions (s ∷ rest) = IsParsed s.parsed_version × AreVersions rest

-- A local version of a release is greater than the release.
pub local_above : (v o : Version) → is_local_of v o ≡ true → (o.key <? v.key) ≡ true
unfolding key_ord
local_above v o h = ground (
  arith,
  nat_beq_iff v.epoch o.epoch,
  =?_iff v.normalized o.normalized,
  =?_iff v.suffix o.suffix,
  list_cmp-eq nat_ord o.normalized v.normalized,
  suffix_ord.cmp_eq o.suffix v.suffix,
)

-- The version in the upper bound that a clause gives.
abbrev upper_for : Operator → Version → Version
upper_for compatible o = upper_of o
upper_for _ o = o

module _ (v : Version) where
  raise_lower_sound :
      (b : Bound) (p : Version) (i : Bool)
      → in_lower b v ≡ true
      → above p i v ≡ true
      → in_lower (raise_lower b p i) v ≡ true
  raise_lower_sound none p i h k = k
  raise_lower_sound (some (b, j)) p i h k = ground (arith, =?_iff p.key b.key)

  cut_upper_sound :
      (b : Bound) (p : Version) (i : Bool)
      → in_upper b v ≡ true
      → below p i v ≡ true
      → in_upper (cut_upper b p i) v ≡ true
  cut_upper_sound none p i h k = k
  cut_upper_sound (some (b, j)) p i h k = ground (arith, =?_iff p.key b.key)

  clause_above :
      (op : Operator) (o : Version)
      → contains_op op false v o ≡ true
      → gives_lower op ≡ true
      → above o (not (is_greater op)) v ≡ true
  unfolding contains_op
  clause_above arbitrary o h g = cc
  clause_above equal o h g =
      ground (arith, =?_iff v.key o.key, le_of_eq o.key v.key, local_above v o, lt→le o.key v.key)
  clause_above not_equal o h g = cc
  clause_above at_least o h g = h
  clause_above at_most o h g = cc
  clause_above greater o h g = ground arith
  clause_above less o h g = cc
  clause_above compatible o h g = ground arith

  -- The upper bound that a clause gives, and the version in it; but a local version of the
  -- operand of "==" is above the operand.
  clause_below :
      (op : Operator) (o : Version)
      → is_nil v.local ≡ true
      → contains_op op false v o ≡ true
      → gives_upper op ≡ true
      → IsVersion v
      → IsVersion o
      → below (upper_for op o) (is_equal_or_at_most op) v ≡ true
  unfolding contains_op
  clause_below arbitrary o p h g good_v good_o = cc
  clause_below equal o p h g good_v good_o =
      ground (arith, =?_iff v.key o.key, le_of_eq v.key o.key)
  clause_below not_equal o p h g good_v good_o = cc
  clause_below at_least o p h g good_v good_o = cc
  clause_below at_most o p h g good_v good_o = h
  clause_below greater o p h g good_v good_o = cc
  clause_below less o p h g good_v good_o = ground arith
  clause_below compatible o p h g good_v good_o =
      ground (arith, prefix_matches_below v o good_v good_o)

  -- The version is above the lower bound, and below the upper one unless it is a local version.
  record IsWithin (lower upper : Bound) : Type 0 where
    over : in_lower lower v ≡ true
    under : (is_nil v.local && not (in_upper upper v)) ≡ false

  module _ (match : Text → Option Groups) (reads : ReadsEpoch match) (good : IsVersion v) where
    upper_version_lem :
        (op : Operator) (o : Version) → IsVersion o → upper_version match op o ≡ ok (upper_for op o)
    upper_version_lem compatible o h = compatible_upper_bound_lem match o reads h
    upper_version_lem arbitrary o h = refl
    upper_version_lem equal o h = refl
    upper_version_lem not_equal o h = refl
    upper_version_lem at_least o h = refl
    upper_version_lem at_most o h = refl
    upper_version_lem greater o h = refl
    upper_version_lem less o h = refl

    add_bounds_sound :
        (op : Operator) (o : Version) (lower upper : Bound)
        → IsVersion o
        → contains_op op false v o ≡ true
        → IsWithin lower upper
        → (lower' : Bound) × (upper' : Bound) × (add_bounds match op o lower upper
            ≡ ok (lower', upper'))
          × IsWithin lower' upper'
    unfolding add_bounds
    add_bounds_sound op o lower upper good_o h w = (
      (if gives_lower op then raise_lower lower o (not (is_greater op)) else lower),
      (if gives_upper op then cut_upper upper (upper_for op o) (is_equal_or_at_most op) else upper),
      ground (arith, upper_version_lem op o good_o),
      record {
        over =
            ground
              (arith, w.over, clause_above op o h, raise_lower_sound lower o (not (is_greater op)));
        under = ground (
          arith,
          w.under,
          clause_below op o,
          cut_upper_sound upper (upper_for op o) (is_equal_or_at_most op),
        );
      },
    )

    abbrev Reached : Result VersionError (Bound × Bound) → Type 0
    Reached r = (lower : Bound) × (upper : Bound) × (r ≡ ok (lower, upper)) × IsWithin lower upper

    bounds_step_sound :
        (s : Specifier) (lower upper : Bound)
        → IsParsed s.parsed_version
        → contains s v ≡ true
        → IsWithin lower upper
        → Reached (bounds_step match s lower upper)
    unfolding contains
    bounds_step_sound s lower upper good_s h w = go s.parsed_version refl
      where
        go : (p : Option Version) → s.parsed_version ≡ p → Reached (bounds_step match s lower upper)
        go none e = (lower, upper, rw e, w)
        go (some o) e = elim (Bool-cases s.is_wildcard) [
          | inl wild ↦ (lower, upper, rw (e, wild), w)
          | inr plain ↦
              rw (e, plain)
                (add_bounds_sound s.operator o lower upper (rw e at good_s)
                  (rw plain at (rw e at h)) w)
        ]

    bounds_loop_sound :
        (l : List Specifier) (lower upper : Bound)
        → AreVersions l
        → every (λ s. contains s v) l ≡ true
        → IsWithin lower upper
        → Reached (bounds_loop match lower upper l)
    unfolding bounds_loop
    bounds_loop_sound [] lower upper good_l h w = (lower, upper, refl, w)
    bounds_loop_sound (s ∷ l) lower upper good_l h w =
        let (lower', upper', e, w') = bounds_step_sound s lower upper good_l.0 (ground arith) w in
        rw (e, bounds_loop) (bounds_loop_sound l lower' upper' good_l.1 (ground arith) w')

-- If every clause of a list contains a version, the bounds of the list are computed without an
-- error and the version is above the lower one. (The regular expression is assumed to read a
-- release behind an epoch as its numbers say, and all versions are made by `Version`.)
pub bounds_of_lower :
    (match : Text → Option Groups) (l : List Specifier) (v : Version)
    → ReadsEpoch match
    → AreVersions l
    → IsVersion v
    → every (λ s. contains s v) l ≡ true
    → (lower : Bound) × (upper : Bound) × (bounds_of match l ≡ ok (lower, upper))
      × (in_lower lower v ≡ true)
unfolding bounds_of
bounds_of_lower match l v reads good_l good h =
    let (lower, upper, e, w) =
      bounds_loop_sound v match reads good l none none good_l h
        (record { over = refl; under = ground arith }) in
    (lower, upper, e, w.over)

-- If every clause of a list contains a version without a local label, the bounds of the list are
-- computed without an error and the version is below the upper one. (The regular expression is
-- assumed to read a release behind an epoch as its numbers say, and all versions are made by
-- `Version`.)
pub bounds_of_upper :
    (match : Text → Option Groups) (l : List Specifier) (v : Version)
    → ReadsEpoch match
    → AreVersions l
    → IsVersion v
    → every (λ s. contains s v) l ≡ true
    → is_nil v.local ≡ true
    → (lower : Bound) × (upper : Bound) × (bounds_of match l ≡ ok (lower, upper))
      × (in_upper upper v ≡ true)
unfolding bounds_of
bounds_of_upper match l v reads good_l good h public_only =
    let (lower, upper, e, w) =
      bounds_loop_sound v match reads good l none none good_l h
        (record { over = refl; under = ground arith }) in
    (lower, upper, e, ground (arith, w.under))

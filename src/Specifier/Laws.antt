-- ===== src/Specifier/Laws.antt =====
-- How the operators answer for one another, and what ">" and "<" leave out.
use core_pip.Prelude.{
  ℕ, ◌≡◌, ◌<◌, refl, Bool, true, false, not, Option, none, some, List, [], ◌∷◌, drop_last, ap, ap₂,
  ◌↔◌, length, get_or, suc, zero, ◌+◌, ◌∙◌, sym, =?_iff, ◌<=?◌, list_cmp-eq, nat_ord, arith,
}
use core_pip.Version.{
  Key, Segment, Version, final_suffix, is_prerelease, suffix_ord, segment_ord, key_ord,
}
use core_pip.Version.Release.{normalize}
use core_pip.Version.Build.{with_key, suffix_of}
use core_pip.Specifier.Padding.{first, take-padded}
use core_pip.Prelude.{text_ord}
use core_pip.Specifier.Defs.{
  release_matches, all_but_last, equal, not_equal, greater, less, compatible, prefix_matches,
  contains_op,
}

-- "!=" contains exactly the versions that "==" does not, with a wildcard and without.
pub not_equal_lem :
    (wildcard : Bool) (v o : Version)
    → contains_op not_equal wildcard v o ≡ not (contains_op equal wildcard v o)
unfolding contains_op
not_equal_lem true v o = refl
not_equal_lem false v o = ground arith

get-first : (w : ℕ) (r : List ℕ) (i : ℕ) → i < w → get_or (first w r) i 0 ≡ get_or r i 0
get-first zero r i h = absurd (omega (arith, h))
get-first (suc w) [] zero h = refl
get-first (suc w) [] (suc i) h = get-first w [] i (omega (arith, h))
get-first (suc w) (n ∷ r) zero h = refl
get-first (suc w) (n ∷ r) (suc i) h = get-first w r i (omega (arith, h))

-- Two releases agree in the segments that the first of them has.
abbrev pub Agree : List ℕ → List ℕ → Type 0
Agree p r = (i : ℕ) → i < length p → get_or r i 0 ≡ get_or p i 0

first-Agree : (p r : List ℕ) → Agree p r → first (length p) r ≡ p
first-Agree [] r h = refl
first-Agree (m ∷ p) [] h =
    ap₂ ◌∷◌ (h 0 (omega arith)) (first-Agree p [] (λ i below. h (suc i) (omega (arith, below))))
first-Agree (m ∷ p) (n ∷ r) h =
    ap₂ ◌∷◌ (h 0 (omega arith)) (first-Agree p r (λ i below. h (suc i) (omega (arith, below))))

release_matches_iff : (v : Version) (p : List ℕ) → (release_matches v p ≡ true) ↔ Agree p v.release
release_matches_iff v p = rw (take-padded (length p) v.release) (
  (λ h i below.
      sym (get-first (length p) v.release i below)
      ∙ ap (λ l. get_or l i 0) ((=?_iff (first (length p) v.release) p).0 h)),
  (λ h. (=?_iff (first (length p) v.release) p).1 (first-Agree p v.release h)),
)

drop_last-get :
    (n : ℕ) (r : List ℕ) (i : ℕ)
    → i < length r
    → get_or (drop_last (n ∷ r)) i 0 ≡ get_or (n ∷ r) i 0
drop_last-get n [] i h = absurd (omega (arith, h))
drop_last-get n (m ∷ r) zero h = refl
drop_last-get n (m ∷ r) (suc i) h = drop_last-get m r i (omega (arith, h))

length-drop_last : (n : ℕ) (r : List ℕ) → length (drop_last (n ∷ r)) ≡ length r
length-drop_last n [] = refl
length-drop_last n (m ∷ r) = ap suc (length-drop_last m r)

Agree-iff :
    (a : ℕ) (r s : List ℕ)
    → Agree (drop_last (a ∷ r)) s
      ↔ ((i : ℕ) → i + 1 < length (a ∷ r) → get_or s i 0 ≡ get_or (a ∷ r) i 0)
Agree-iff a r s = (
  λ h i below.
      h i (omega (arith, below, length-drop_last a r)) ∙ drop_last-get a r i (omega (arith, below)),
  λ h i below.
      let here : i < length r = omega (arith, below, length-drop_last a r) in
      h i (omega (arith, here)) ∙ sym (drop_last-get a r i here),
)

-- All segments but the last of a release with more than one
all_but_last_iff :
    (v : Version) (p : List ℕ)
    → 1 < length p
    → (release_matches v (all_but_last p) ≡ true)
      ↔ ((i : ℕ) → i + 1 < length p → get_or v.release i 0 ≡ get_or p i 0)
all_but_last_iff v [] h = absurd (omega (arith, h))
all_but_last_iff v (a ∷ []) h = absurd (omega (arith, h))
all_but_last_iff v (a ∷ b ∷ r) h =
    let matches = release_matches_iff v (drop_last (a ∷ b ∷ r)) in
    let agree = Agree-iff a (b ∷ r) v.release in
    (λ m. agree.0 (matches.0 m), λ f. matches.1 (agree.1 f))

-- "~=V" with at least two segments, whatever else there is in V, contains a version exactly if it is
-- V or a later one, and it is of the epoch of V and has all segments of the release of V but the
-- last, a missing one counting as zero.
pub compatible_iff :
    (v o : Version) (wildcard : Bool)
    → 1 < length o.release
    → (contains_op compatible wildcard v o ≡ true) ↔ (
        ((o.key <=? v.key) ≡ true)
        × (v.epoch ≡ o.epoch)
        × ((i : ℕ) → i + 1 < length o.release → get_or v.release i 0 ≡ get_or o.release i 0))
unfolding contains_op prefix_matches
compatible_iff v o wildcard h =
    let prefix = all_but_last_iff v o.release h in
    (
      λ m. (ground (arith, m), ground (arith, m), prefix.0 (ground (arith, m))),
      λ (later, epochs, segments). ground (arith, later, epochs, prefix.1 segments),
    )

abbrev final_key : ℕ → List ℕ → Key
final_key e r = (with_key e r final_suffix []).key

-- ">V" for a V that is neither a post-release nor a development release contains no post-release
-- of V (a prerelease rank being below 3), whatever its number, its development number and its local label.
pub greater_post :
    (e : ℕ) (r : List ℕ) (pre : Option (ℕ × ℕ)) (n : ℕ) (dev : Option ℕ) (l : List Segment)
    (wildcard : Bool)
    → ((k m : ℕ) → pre ≡ some (k, m) → k < 3)
    → contains_op greater wildcard
        (with_key e r (suffix_of pre (some n) dev) l)
        (with_key e r (suffix_of pre none none) [])
      ≡ false
unfolding contains_op suffix_of
greater_post e r none n dev l wildcard h =
    ground (arith, key_ord.cmp_eq (final_key e r) (final_key e r))
greater_post e r (some (k, m)) n dev l wildcard h =
    let key = (with_key e r (suffix_of (some (k, m)) none none) []).key in
    ground (arith, key_ord.cmp_eq key key, h k m refl)

-- "<V" for a final V contains no prerelease and no development release of V.
pub less_pre :
    (e : ℕ) (r : List ℕ) (pre : Option (ℕ × ℕ)) (post dev : Option ℕ) (l : List Segment)
    (wildcard : Bool)
    → is_prerelease (with_key e r (suffix_of pre post dev) l) ≡ true
    → contains_op less wildcard
        (with_key e r (suffix_of pre post dev) l)
        (with_key e r final_suffix [])
      ≡ false
unfolding contains_op suffix_of is_prerelease key_ord
less_pre e r none none none l wildcard h = cc
less_pre e r none none (some d) [] wildcard h =
    unfold suffix_ord in ground (arith, list_cmp-eq nat_ord (normalize r) (normalize r))
less_pre e r none none (some d) (s ∷ l) wildcard h =
    unfold suffix_ord in ground (arith, list_cmp-eq nat_ord (normalize r) (normalize r))
less_pre e r pre post dev l wildcard h =
    unfold suffix_ord in ground (arith, list_cmp-eq nat_ord (normalize r) (normalize r))

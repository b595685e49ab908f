-- ===== src/Candidates/Hashes.antt =====
-- `filter_unallowed_hashes` of src/cpip/index/candidate_filters.py, without its log lines.
use mathlib.Core.List.{append-nil, append_assoc}
use core_pip.Prelude.{
  ℕ, ◌+◌, ◌≡◌, ◌∙◌, sym, ap, refl, Bool, true, false, not, ◌&&◌, Option, none, some, List, [], ◌∷◌,
  ◌++◌, keep, some_of, is_nil, nat_beq, if◌then◌else◌, arith,
}
use core_pip.Controls.{TextSet, has}
use core_pip.Candidates.Models.{Candidate, sha256_of}

-- The variables of the loop that the result depends on.
pub record Tally : Type 0 where
  pub matches : ℕ
  pub result : List Candidate

unfoldable pub tally_step : TextSet → Tally → Candidate → Tally
tally_step allowed t c = elim (sha256_of c) [
  | none ↦ record t { result = t.result ++ (c ∷ []) }
  | some digest ↦
      if has digest allowed
      then record { matches = t.matches + 1; result = t.result ++ (c ∷ []) }
      else t
]

unfoldable pub tally_loop : TextSet → Tally → List Candidate → Tally
unfolding tally_step
tally_loop allowed t [] = t
tally_loop allowed t (c ∷ rest) = tally_loop allowed (tally_step allowed t c) rest

-- `hashes` is `None`, or the digests that are allowed.
unfoldable pub filter_unallowed_hashes : Option TextSet → List Candidate → List Candidate
unfolding tally_loop
filter_unallowed_hashes none candidates = candidates
filter_unallowed_hashes (some allowed) candidates =
    if is_nil allowed
    then candidates
    else let t = tally_loop allowed (record { matches = 0; result = [] }) candidates in
      if nat_beq t.matches 0 then candidates else t.result

-- The candidate has an allowed digest; or it has none at all.
abbrev pub has_match : TextSet → Candidate → Bool
has_match allowed c = elim (sha256_of c) [ none ↦ false | some digest ↦ has digest allowed ]

abbrev pub may_stay : TextSet → Candidate → Bool
may_stay allowed c = elim (sha256_of c) [ none ↦ true | some digest ↦ has digest allowed ]

tally_step_result :
    (allowed : TextSet) (t : Tally) (c : Candidate)
    → (tally_step allowed t c).result
      ≡ (if may_stay allowed c then t.result ++ (c ∷ []) else t.result)
unfolding tally_step
tally_step_result allowed t c = ground arith

tally_step_matches :
    (allowed : TextSet) (t : Tally) (c : Candidate)
    → nat_beq (tally_step allowed t c).matches 0
      ≡ (nat_beq t.matches 0 && not (has_match allowed c))
unfolding tally_step
tally_step_matches allowed t c = ground arith

tally_loop-cons :
    (allowed : TextSet) (t : Tally) (c : Candidate) (l : List Candidate)
    → tally_loop allowed t (c ∷ l) ≡ tally_loop allowed (tally_step allowed t c) l
unfolding tally_loop
tally_loop-cons allowed t c l = refl

kept_next :
    (b : Bool) (done l : List Candidate) (c : Candidate)
    → (if b then done ++ (c ∷ []) else done) ++ l ≡ done ++ (if b then c ∷ l else l)
kept_next true done l c = append_assoc done (c ∷ []) l
kept_next false done l c = refl

-- The loop keeps what may stay, and counts a match exactly if there is one.
tally_loop_result :
    (allowed : TextSet) (t : Tally) (l : List Candidate)
    → (tally_loop allowed t l).result ≡ t.result ++ keep (may_stay allowed) l
tally_loop_result allowed t [] = unfold tally_loop in sym (append-nil t.result)
tally_loop_result allowed t (c ∷ l) =
    ap (λ u. u.result) (tally_loop-cons allowed t c l)
    ∙ tally_loop_result allowed (tally_step allowed t c) l
    ∙ ap (λ r. r ++ keep (may_stay allowed) l) (tally_step_result allowed t c)
    ∙ kept_next (may_stay allowed c) t.result (keep (may_stay allowed) l) c

tally_loop_matches :
    (allowed : TextSet) (t : Tally) (l : List Candidate)
    → nat_beq (tally_loop allowed t l).matches 0
      ≡ (nat_beq t.matches 0 && not (some_of (has_match allowed) l))
tally_loop_matches allowed t [] = unfold tally_loop in ground arith
tally_loop_matches allowed t (c ∷ l) = ground (
  arith,
  ap (λ u. u.matches) (tally_loop-cons allowed t c l),
  tally_step_matches allowed t c,
  tally_loop_matches allowed (tally_step allowed t c) l,
)

-- With allowed digests, of which some candidate has one, the result is the candidates with an
-- allowed digest and those with no digest, in their order. Otherwise, without allowed digests or
-- without a match, it is all candidates.
pub filter_unallowed_hashes_lem :
    (allowed : TextSet) (l : List Candidate)
    → filter_unallowed_hashes (some allowed) l ≡ (
        if not (is_nil allowed) && some_of (has_match allowed) l
        then keep (may_stay allowed) l
        else l)
unfolding filter_unallowed_hashes
filter_unallowed_hashes_lem allowed l = ground (
  arith,
  tally_loop_matches allowed (record { matches = 0; result = [] }) l,
  tally_loop_result allowed (record { matches = 0; result = [] }) l,
)

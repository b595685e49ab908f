-- ===== src/Transaction/Placing.antt =====
-- Putting a staged file in its place keeps a guarded path safe.
use core_pip.Prelude.{
  ℕ, ◌+◌, ◌-◌, ◌≡◌, ◌∙◌, refl, ◌⊎◌, inl, inr, Bool, true, false, Option, none, some, Text, text_ord,
  ◌=?◌, nat_beq, Option-cases, Bool-cases, if◌then◌else◌, arith,
}
use core_pip.Controls.{has}
use core_pip.Transaction.FileSystem.{Bytes, Node, file, Disk, put, cut_short, with_mode}
use core_pip.Transaction.Staging.{
  Payload, moved, cloned, written, InstallTransaction, record_created,
}
use core_pip.Transaction.Rollback.{State, continue, with_transaction, is_under}
use core_pip.Transaction.Commit.{
  part_left, mode_or_default, attempt, nothing_left, chmod_if, write_contents, masked, is_stripped,
  place,
}
use core_pip.Transaction.Recovered.{under_ne}
use core_pip.Transaction.Safe.{
  Safe, SameUnder, is_covered, is_guarded, changed_disk, recorded, Ensures, continue-Ensures,
  Ensures-weaken,
}

-- The source is moved from elsewhere.
abbrev pub IsElsewhere : Text → Text → Payload → Type 0
IsElsewhere temporary q (moved source) =
    (is_under temporary source ≡ false) × ((q =? source) ≡ false)
IsElsewhere temporary q (cloned source) = Unit {0}
IsElsewhere temporary q (written contents) = Unit {0}

-- The destination is written by a copy that may break off before it is recorded.
abbrev pub is_copied : (Text → Text → Bool) → Payload → Text → Bool
is_copied cross_device (moved source) destination = cross_device source destination
is_copied cross_device (cloned source) destination = true
is_copied cross_device (written contents) destination = false

-- A call that raises has done nothing.
abbrev pub LeavesNothing : (ℕ → Option ℕ) → Type 0
LeavesNothing fault = (n k : ℕ) → fault n ≡ some k → k ≡ 0

put_under :
    (temporary p : Text) (o : Option Node) (d : Disk)
    → is_under temporary p ≡ false
    → SameUnder temporary d (put p o d)
unfolding put
put_under temporary p o d out b under = ground (arith, under_ne temporary b p under out)

module _ (normalized dirname : Text → Text) (cross_device : Text → Text → Bool) (umask : ℕ)
    (fault : ℕ → Option ℕ) (temporary q : Text) (before : Option Node) where
  -- What holds behind a call, and what holds if it raises
  pub attempt-Ensures :
      (P Q : State → Type 0) (left : ℕ → Disk → Disk) (effect : Disk → Disk) (s : State)
      → P (record s { disk = effect s.disk; calls = s.calls + 1 })
      → Q (record s { disk = effect s.disk; calls = s.calls + 1 })
      → ((k : ℕ)
          → fault s.calls ≡ some k
          → P (record s { disk = left k s.disk; calls = s.calls + 1 }))
      → Ensures P Q (attempt normalized dirname cross_device umask fault left effect s)
  attempt-Ensures P Q left effect s p r raises = elim (Option-cases (fault s.calls)) [
    | inl passes ↦ rw (passes, Ensures) (p, r)
    | inr (k, fails) ↦ rw (fails, Ensures) (raises k fails)
  ]

  module _ (p : Text) (s : State) (safe : Safe temporary q before s)
      (p_out : is_under temporary p ≡ false) where
    -- Another node at a covered path
    covered_change :
        ((q =? p) ≡ true → is_covered q s ≡ true)
        → (o : Option Node)
        → Safe temporary q before (record s { disk = put p o s.disk; calls = s.calls + 1 })
    covered_change covered o =
        changed_disk temporary q before s safe (put p o s.disk) (s.calls + 1)
          (put_under temporary p o s.disk p_out) (λ c. unfold put in ground (arith, covered, c))

    unchanged : Safe temporary q before (record s { disk = s.disk; calls = s.calls + 1 })
    unchanged =
        changed_disk temporary q before s safe s.disk (s.calls + 1) (λ b u. refl) (λ c. refl)

    chmod_if_lem :
        (needed : Bool) (mode : Option ℕ)
        → ((q =? p) ≡ true → is_covered q s ≡ true)
        → Ensures
            (Safe temporary q before)
            (λ s'. s'.transaction ≡ s.transaction)
            (chmod_if normalized dirname cross_device umask fault needed p mode s)
    chmod_if_lem needed none covered = (safe, refl)
    chmod_if_lem false (some mode) covered = (safe, refl)
    chmod_if_lem true (some mode) covered =
        attempt-Ensures (Safe temporary q before) (λ s'. s'.transaction ≡ s.transaction)
          nothing_left (λ d. put p (with_mode mode (d p)) d) s
          (covered_change covered (with_mode mode (s.disk p))) refl (λ k fails. unchanged)

    write_contents_lem :
        (contents : Bytes) (mode : ℕ)
        → ((q =? p) ≡ true → is_covered q s ≡ true)
        → Ensures
            (Safe temporary q before)
            (λ s'. s'.transaction ≡ s.transaction)
            (write_contents normalized dirname cross_device umask fault p contents mode s)
    write_contents_lem contents mode covered =
        let n = file contents (masked normalized dirname cross_device umask fault mode) in
        attempt-Ensures (Safe temporary q before) (λ s'. s'.transaction ≡ s.transaction)
          (part_left p n) (λ d. put p (some n) d) s (covered_change covered (some n)) refl
          (λ k fails. elim (Bool-cases (nat_beq k 0)) [
            | inl e ↦ rw e unchanged
            | inr e ↦ rw e (covered_change covered (some (cut_short (k - 1) n)))
          ])

  -- Behind the record of a destination the path is covered.
  covered_record :
      (p : Text) (d : Disk) (n : ℕ) (t : InstallTransaction)
      → (q =? p) ≡ true
      → is_covered q (record { disk = d; calls = n; transaction = record_created p t }) ≡ true
  covered_record p d n t at = unfold has in ground (arith, at)

  abbrev pub IsPlaced : Text → State → State → Type 0
  IsPlaced p s s' = s'.transaction ≡ record_created p s.transaction

  -- A source that is put and recorded; what it leaves if it raises
  IsPlaced-source :
      (p : Text) (s : State) (left : ℕ → Disk → Disk) (effect : Disk → Disk) (mode : Option ℕ)
      → Safe temporary q before s
      → is_under temporary p ≡ false
      → ((q =? p) ≡ true → is_guarded q before s ≡ true)
      → SameUnder temporary s.disk (effect s.disk)
      → ((q =? p) ≡ false → effect s.disk q ≡ s.disk q)
      → ((k : ℕ)
          → fault s.calls ≡ some k
          → Safe temporary q before (record s { disk = left k s.disk; calls = s.calls + 1 }))
      → Ensures (Safe temporary q before) (IsPlaced p s) (
          continue (attempt normalized dirname cross_device umask fault left effect s) λ s1.
            continue
              (with_transaction (record_created p) s1)
              (chmod_if normalized dirname cross_device umask fault true p mode))
  IsPlaced-source p s left effect mode safe p_out guard same elsewhere raises =
      elim (Option-cases (fault s.calls)) [
        | inl passes ↦
            let s2 : State = record s {
              disk = effect s.disk;
              calls = s.calls + 1;
              transaction = record_created p s.transaction;
            } in
            rw (passes, Ensures)
              (chmod_if_lem p s2
                (recorded temporary q before s safe p (effect s.disk) (s.calls + 1) p_out same
                  elsewhere guard)
                p_out true mode (covered_record p (effect s.disk) (s.calls + 1) s.transaction))
        | inr (k, fails) ↦ rw (fails, Ensures) (raises k fails)
      ]

  left_whole :
      (p : Text) (n : Node) (s : State) (copied : Bool)
      → Safe temporary q before s
      → (copied ≡ false) ⊎ LeavesNothing fault
      → (k : ℕ) → fault s.calls ≡ some k
      → Safe temporary q before (record s {
        disk = if copied then part_left p n k s.disk else s.disk;
        calls = s.calls + 1;
      })
  left_whole p n s copied safe whole k fails =
      let same =
        changed_disk temporary q before s safe s.disk (s.calls + 1) (λ b u. refl) (λ c. refl) in
      elim whole [
        | inl e ↦ rw e same
        | inr nothing ↦ elim (Bool-cases copied) [
          | inl e ↦ rw (e, nothing s.calls k fails) same
          | inr e ↦ rw e same
        ]
      ]

  module _ (p : Text) (s : State) (safe : Safe temporary q before s)
      (p_out : is_under temporary p ≡ false)
      (guard : (q =? p) ≡ true → is_guarded q before s ≡ true) (mode : Option ℕ) where
    place_written :
        (contents : Bytes)
        → Ensures
            (Safe temporary q before)
            (IsPlaced p s)
            (place normalized dirname cross_device umask fault (written contents) p mode s)
    unfolding place
    place_written contents =
        let s1 : State = record s { transaction = record_created p s.transaction } in
        let safe1 : Safe temporary q before s1 =
          recorded temporary q before s safe p s.disk s.calls p_out (λ b u. refl) (λ e. refl)
            guard in
        let covered1 = covered_record p s.disk s.calls s.transaction in
        continue-Ensures (Safe temporary q before) (λ s'. s'.transaction ≡ s1.transaction)
          (IsPlaced p s)
          (write_contents normalized dirname cross_device umask fault p contents
            (mode_or_default mode) s1)
          (chmod_if normalized dirname cross_device umask fault
            (is_stripped normalized dirname cross_device umask fault mode) p mode)
          (write_contents_lem p s1 safe1 p_out contents (mode_or_default mode) covered1)
          (λ s2 safe2 same.
            Ensures-weaken (Safe temporary q before) (λ s'. s'.transaction ≡ s2.transaction)
              (IsPlaced p s)
              (chmod_if normalized dirname cross_device umask fault
                (is_stripped normalized dirname cross_device umask fault mode) p mode s2)
              (chmod_if_lem p s2 safe2 p_out
                (is_stripped normalized dirname cross_device umask fault mode) mode
                (λ at. rw same (covered1 at)))
              (λ s' e. e ∙ same))

    place_moved :
        (source : Text)
        → IsElsewhere temporary q (moved source)
        → (cross_device source p ≡ false) ⊎ LeavesNothing fault
        → (o : Option Node) → s.disk source ≡ o
        → Ensures
            (Safe temporary q before)
            (IsPlaced p s)
            (place normalized dirname cross_device umask fault (moved source) p mode s)
    unfolding place
    place_moved source (source_out, q_source) whole none e = rw (e, Ensures) safe
    place_moved source (source_out, q_source) whole (some n) e =
        rw (e, Ensures)
          (IsPlaced-source p s (λ k d. if cross_device source p then part_left p n k d else d)
            (λ d. put p (some n) (put source none d)) mode safe p_out guard
            (λ b u.
              unfold put in
              ground
                (arith, under_ne temporary b p u p_out, under_ne temporary b source u source_out))
            (λ other. unfold put in ground (arith, other, q_source))
            (left_whole p n s (cross_device source p) safe whole))

    place_cloned :
        (source : Text)
        → LeavesNothing fault
        → (o : Option Node) → s.disk source ≡ o
        → Ensures
            (Safe temporary q before)
            (IsPlaced p s)
            (place normalized dirname cross_device umask fault (cloned source) p mode s)
    unfolding place
    place_cloned source whole none e = rw (e, Ensures) safe
    place_cloned source whole (some n) e =
        rw (e, Ensures)
          (IsPlaced-source p s (part_left p n) (λ d. put p (some n) d) mode safe p_out guard
            (put_under temporary p (some n) s.disk p_out)
            (λ other. unfold put in ground (arith, other)) (left_whole p n s true safe (inr whole)))

  -- The three kinds of payload
  pub place_lem :
      (payload : Payload) (p : Text) (mode : Option ℕ) (s : State)
      → Safe temporary q before s
      → is_under temporary p ≡ false
      → ((q =? p) ≡ true → is_guarded q before s ≡ true)
      → IsElsewhere temporary q payload
      → (is_copied cross_device payload p ≡ false) ⊎ LeavesNothing fault
      → Ensures
          (Safe temporary q before)
          (IsPlaced p s)
          (place normalized dirname cross_device umask fault payload p mode s)
  place_lem (written contents) p mode s safe p_out guard elsewhere whole =
      place_written p s safe p_out guard mode contents
  place_lem (moved source) p mode s safe p_out guard elsewhere whole =
      place_moved p s safe p_out guard mode source elsewhere whole (s.disk source) refl
  place_lem (cloned source) p mode s safe p_out guard elsewhere (inl whole) = cc
  place_lem (cloned source) p mode s safe p_out guard elsewhere (inr whole) =
      place_cloned p s safe p_out guard mode source whole (s.disk source) refl

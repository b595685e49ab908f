-- ===== src/Transaction/Outcome.antt =====
-- What the statements of `commit` make of one path, where none of them raises.
use core_pip.Prelude.{
  ℕ, ◌+◌, ◌≡◌, ◌∙◌, refl, Bool, true, false, Option, none, some, Text, text_ord, ◌=?◌, =?_iff,
  is_some, length, Option-cases, Bool-cases, inl, inr, if◌then◌else◌, arith,
}
use core_pip.Caches.{lookup}
use core_pip.Transaction.FileSystem.{Bytes, Node, file, Disk, put}
use core_pip.Transaction.Staging.{InstallTransaction}
use core_pip.Transaction.Rollback.{
  State, Run, returned, raised, continue, with_transaction, is_under,
}
use core_pip.Transaction.Commit.{
  is_present, move_to_backup, next_backup, attempt, backup_if_needed, masked,
}
use core_pip.Transaction.Recovered.{is_under-backup_path, ne_under}
use core_pip.Transaction.Safe.{is_right, Leaves}

-- What holds if a run returns.
abbrev pub Returns : (State → Type 0) → Run → Type 0
Returns R r = Leaves (λ s. Unit {0}) R r

pub Returns-continue :
    (Q R : State → Type 0) (r : Run) (f : State → Run)
    → Returns Q r
    → ((s : State) → Q s → Returns R (f s))
    → Returns R (continue r f)
Returns-continue Q R (returned s) f q next = next s q
Returns-continue Q R (raised e s) f q next = tt

pub Returns-weaken :
    (Q R : State → Type 0) (r : Run) → Returns Q r → ((s : State) → Q s → R s) → Returns R r
Returns-weaken Q R (returned s) q weaker = weaker s q
Returns-weaken Q R (raised e s) q weaker = tt

none_if : (o : Option Node) → is_some o ≡ false → o ≡ none
none_if none e = refl
none_if (some n) e = cc

-- Nothing stood there, by the test at the head of `backup_if_needed`.
is_none_before :
    (known : Option Bool) (before : Option Node)
    → elim known [ none ↦ is_some before | some present ↦ present ] ≡ false
    → is_right known before ≡ true
    → before ≡ none
is_none_before none before e r = none_if before e
is_none_before (some true) before e r = cc
is_none_before (some false) before e r = none_if before (ground (arith, r))

-- The orders of a transaction are those of another.
pub record HasOrders (t0 t : InstallTransaction) : Type 0 where
  pub temporary : t.temporary_internal ≡ t0.temporary_internal
  pub items : t.staged_internal ≡ t0.staged_internal
  pub destinations : t.staged_destinations ≡ t0.staged_destinations
  pub deletions : t.deletions ≡ t0.deletions

-- At the path stands `o`, and what `validate` has recorded of it is right for `before`.
pub record Holds (t0 : InstallTransaction) (q : Text) (before o : Option Node) (s : State)
    : Type 0 where
  pub orders : HasOrders t0 s.transaction
  pub there : s.disk q ≡ o
  pub listed : is_right (lookup q s.transaction.destination_presence) before ≡ true

module _ (normalized dirname : Text → Text) (cross_device : Text → Text → Bool) (umask : ℕ)
    (fault : ℕ → Option ℕ) where
  pub attempt-Returns :
      (R : State → Type 0) (left : ℕ → Disk → Disk) (effect : Disk → Disk) (s : State)
      → R (record s { disk = effect s.disk; calls = s.calls + 1 })
      → Returns R (attempt normalized dirname cross_device umask fault left effect s)
  attempt-Returns R left effect s r = elim (Option-cases (fault s.calls)) [
    | inl passes ↦ rw (passes, Leaves) r
    | inr (k, fails) ↦ rw (fails, Leaves) tt
  ]

  -- The mode of a file that is written: the mode that is asked for, or 0o666 without the bits of
  -- the umask.
  abbrev pub final_mode : Option ℕ → ℕ
  final_mode none = masked normalized dirname cross_device umask fault 438
  final_mode (some mode) = mode

  abbrev pub written_node : Bytes → Option ℕ → Option Node
  written_node contents mode = some (file contents (final_mode mode))

  module _ (t0 : InstallTransaction) (q : Text) (before : Option Node)
      (outside : is_under t0.temporary_internal q ≡ false) where
    next_backup_ne :
        (s : State) → HasOrders t0 s.transaction → (q =? next_backup s.transaction) ≡ false
    next_backup_ne s orders =
        ne_under t0.temporary_internal (next_backup s.transaction) q
          (rw orders.temporary
            (is_under-backup_path t0.temporary_internal (length s.transaction.backups)))
          outside

    moved_to_backup :
        (p : Text) (n : Option Node) (o : Option Node) (s : State)
        → HasOrders t0 s.transaction
        → is_right (lookup q s.transaction.destination_presence) before ≡ true
        → (if q =? p then none else s.disk q) ≡ o
        → Returns
            (Holds t0 q before o)
            (move_to_backup normalized dirname cross_device umask fault p n s)
    moved_to_backup p none o s orders listed after = tt
    moved_to_backup p (some n) o s orders listed after = elim (Option-cases (fault s.calls)) [
      | inl passes ↦
          rw (passes, continue, with_transaction)
            (record {
              orders = record {
                temporary = orders.temporary;
                items = orders.items;
                destinations = orders.destinations;
                deletions = orders.deletions;
              };
              there = unfold put in ground (arith, next_backup_ne s orders, after);
              listed = listed;
            })
      | inr (k, fails) ↦ rw (fails, continue) tt
    ]

    -- What a backup leaves at the path
    backup_leaves :
        (p : Text) (o : Option Node) (s : State)
        → HasOrders t0 s.transaction
        → is_right (lookup q s.transaction.destination_presence) before ≡ true
        → (is_present p s ≡ false → s.disk q ≡ o)
        → (is_present p s ≡ true → (if q =? p then none else s.disk q) ≡ o)
        → Returns
            (Holds t0 q before o)
            (backup_if_needed normalized dirname cross_device umask fault p s)
    unfolding backup_if_needed
    backup_leaves p o s orders listed absent present = elim (Bool-cases (is_present p s)) [
      | inl e ↦ rw e (moved_to_backup p (s.disk p) o s orders listed (present e))
      | inr e ↦ rw (e, Leaves) (record { orders = orders; there = absent e; listed = listed })
    ]

    pub backup_elsewhere :
        (p : Text) (o : Option Node) (s : State)
        → Holds t0 q before o s
        → ((q =? p) ≡ true → o ≡ none)
        → Returns
            (Holds t0 q before o)
            (backup_if_needed normalized dirname cross_device umask fault p s)
    backup_elsewhere p o s h gone =
        backup_leaves p o s h.orders h.listed (λ e. h.there) (λ e. ground (arith, h.there, gone))

    -- A path that is as it was when it was looked at is gone behind its backup.
    pub backup_here :
        (p : Text) (s : State)
        → Holds t0 q before before s
        → (q =? p) ≡ true
        → Returns
            (Holds t0 q before none)
            (backup_if_needed normalized dirname cross_device umask fault p s)
    backup_here p s h at =
        let same : q ≡ p = (=?_iff q p).0 at in
        backup_leaves p none s h.orders h.listed
          (λ e.
            let absent : is_present q s ≡ false = rw same e in
            h.there
            ∙ (is_none_before (lookup q s.transaction.destination_presence) before
                (ground (arith, absent, h.there)) h.listed))
          (λ e. rw at)

    -- Something or nothing stands at the path.
    abbrev pub HoldsAny : State → Type 0
    HoldsAny s = (o : Option Node) × Holds t0 q before o s

    weaken_some :
        (p : Text) (o : Option Node) (s : State)
        → Returns
            (Holds t0 q before o)
            (backup_if_needed normalized dirname cross_device umask fault p s)
        → Returns HoldsAny (backup_if_needed normalized dirname cross_device umask fault p s)
    weaken_some p o s r =
        Returns-weaken (Holds t0 q before o) HoldsAny
          (backup_if_needed normalized dirname cross_device umask fault p s) r (λ s' h'. (o, h'))

    pub backup_any :
        (p : Text) (o : Option Node) (s : State)
        → Holds t0 q before o s
        → Returns HoldsAny (backup_if_needed normalized dirname cross_device umask fault p s)
    backup_any p o s h = elim (Bool-cases (q =? p)) [
      | inl at ↦ elim (Bool-cases (is_present p s)) [
        | inl e ↦
            weaken_some p none s (backup_leaves p none s h.orders h.listed (λ e'. cc) (λ e'. rw at))
        | inr e ↦
            weaken_some p o s (backup_leaves p o s h.orders h.listed (λ e'. h.there) (λ e'. cc))
      ]
      | inr other ↦ weaken_some p o s (backup_elsewhere p o s h (λ at. cc))
    ]

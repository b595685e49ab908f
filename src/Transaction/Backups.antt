-- ===== src/Transaction/Backups.antt =====
-- `backup_if_needed` keeps a path safe, and guards the path that it is called for.
use core_pip.Prelude.{
  ℕ, ◌+◌, ◌≡◌, ◌∙◌, ap, refl, Bool, true, false, not, ◌&&◌, ◌||◌, Option, none, some, List, ◌∷◌,
  Text, text_ord, ◌=?◌, =?_iff, is_some, length, Option-cases, Bool-cases, inl, inr, arith,
}
use core_pip.Caches.{lookup}
use core_pip.Controls.{has}
use core_pip.Transaction.FileSystem.{Node, put}
use core_pip.Transaction.Rollback.{with_transaction, State, continue, backup_path, is_under}
use core_pip.Transaction.Commit.{next_backup, is_present, move_to_backup, backup_if_needed}
use core_pip.Transaction.Recovered.{
  is_under-backup_path, under_ne, ne_under, origin, origin_number, backup_path_ne,
}
use core_pip.Transaction.Safe.{Safe, is_guarded, changed_disk, Ensures}

-- The fields that `commit` reads later, and that only its loops change
pub record SameOrders (s s' : State) : Type 0 where
  pub deletions : s'.transaction.deletions ≡ s.transaction.deletions
  pub created : s'.transaction.created_internal ≡ s.transaction.created_internal

module _ (temporary q : Text) (before : Option Node) (outside : is_under temporary q ≡ false) where
  backed_up :
      (p : Text) (n : Node) (c : ℕ) (s : State)
      → Safe temporary q before s
      → is_under temporary p ≡ false
      → (has q s.transaction.created_internal && q =? p) ≡ false
      → s.disk p ≡ some n
      → let nb = next_backup s.transaction in
        Safe temporary q before (record s {
          disk = put p none (put nb (some n) s.disk);
          calls = c;
          transaction = record s.transaction { backups = (p, nb) ∷ s.transaction.backups };
        })
  backed_up p n c s safe p_out fresh stands =
      let nb = next_backup s.transaction in
      let l = s.transaction.backups in
      let named : nb ≡ backup_path temporary (length l) =
        ap (λ t. backup_path t (length l)) safe.at_temporary in
      let nb_under : is_under temporary nb ≡ true =
        rw named (is_under-backup_path temporary (length l)) in
      let q_nb : (q =? nb) ≡ false = ne_under temporary nb q nb_under outside in
      let nb_p : (nb =? p) ≡ false = under_ne temporary nb p nb_under p_out in
      let nb_nb : (nb =? nb) ≡ true = (=?_iff nb nb).1 refl in
      elim (Option-cases (origin q l)) [
        | inl missed ↦ record {
          at_temporary = safe.at_temporary;
          numbered = (named, p_out, safe.numbered);
          apart = safe.apart;
          kept = elim (Bool-cases (q =? p)) [
            | inl at ↦
                let there : s.disk q ≡ some n = ap s.disk ((=?_iff q p).0 at) ∙ stands in
                unfold put in ground (arith, missed, at, fresh, there, safe.kept, nb_p, nb_nb)
            | inr other ↦ unfold put in ground (arith, missed, other, q_nb, safe.kept)
          ];
          stored = unfold put in ground (arith, missed, nb_p, nb_nb);
          listed = safe.listed;
        }
        | inr (x, found) ↦
            let (i, lt, at) = origin_number temporary q x l safe.numbered found in
            let x_nb : (x =? nb) ≡ false =
              rw (at, named) (backup_path_ne temporary i (length l) lt) in
            let x_p : (x =? p) ≡ false =
              under_ne temporary x p (rw at (is_under-backup_path temporary i)) p_out in
            record {
              at_temporary = safe.at_temporary;
              numbered = (named, p_out, safe.numbered);
              apart = safe.apart;
              kept = unfold put in ground (arith, found, x_nb, x_p, safe.kept);
              stored = unfold put in ground (arith, found, x_nb, x_p, safe.stored);
              listed = safe.listed;
            }
      ]

  -- Behind a backup of the path itself it has one.
  guarded_by_backup :
      (l : List (Text × Text)) (p b : Text)
      → ((q =? p) ≡ true → (is_some (origin q ((p, b) ∷ l)) || not (is_some before)) ≡ true)
  guarded_by_backup l p b at = elim (Option-cases (origin q l)) [
    | inl missed ↦ ground (arith, missed, at)
    | inr (x, found) ↦ ground (arith, found)
  ]

  -- Where there is nothing to back up, nothing stood there.
  guarded_by_absence :
      (p : Text) (s : State)
      → Safe temporary q before s
      → (has q s.transaction.created_internal && q =? p) ≡ false
      → is_present p s ≡ false
      → (q =? p) ≡ true
      → is_guarded q before s ≡ true
  guarded_by_absence p s safe fresh absent at =
      let same : q ≡ p = (=?_iff q p).0 at in
      let absent' : is_present q s ≡ false = rw same absent in
      elim (Option-cases (lookup q s.transaction.destination_presence)) [
        | inl unlisted ↦ elim (Option-cases (origin q s.transaction.backups)) [
          | inl missed ↦ ground (arith, absent', unlisted, missed, fresh, at, safe.kept)
          | inr (x, found) ↦ ground (arith, found)
        ]
        | inr (b, listed) ↦ ground (arith, absent', listed, safe.listed)
      ]

  module _ (normalized dirname : Text → Text) (cross_device : Text → Text → Bool) (umask : ℕ)
      (fault : ℕ → Option ℕ) where
    abbrev pub BackedUp : Text → State → State → Type 0
    BackedUp p s s' = SameOrders s s' × ((q =? p) ≡ true → is_guarded q before s' ≡ true)

    move_to_backup_lem :
        (p : Text) (o : Option Node) (s : State)
        → Safe temporary q before s
        → is_under temporary p ≡ false
        → (has q s.transaction.created_internal && q =? p) ≡ false
        → s.disk p ≡ o
        → Ensures
            (Safe temporary q before)
            (BackedUp p s)
            (move_to_backup normalized dirname cross_device umask fault p o s)
    move_to_backup_lem p none s safe p_out fresh stands = safe
    move_to_backup_lem p (some n) s safe p_out fresh stands = elim (Option-cases (fault s.calls)) [
      | inl passes ↦
          rw (passes, continue, with_transaction)
            (
              backed_up p n (s.calls + 1) s safe p_out fresh stands,
              (
                record { deletions = refl; created = refl },
                guarded_by_backup s.transaction.backups p (next_backup s.transaction),
              ),
            )
      | inr (k, fails) ↦
          rw (fails, continue)
            (changed_disk temporary q before s safe s.disk (s.calls + 1) (λ p u. refl) (λ c. refl))
    ]

    pub backup_if_needed_lem :
        (p : Text) (s : State)
        → Safe temporary q before s
        → is_under temporary p ≡ false
        → (has q s.transaction.created_internal && q =? p) ≡ false
        → Ensures
            (Safe temporary q before)
            (BackedUp p s)
            (backup_if_needed normalized dirname cross_device umask fault p s)
    unfolding backup_if_needed
    backup_if_needed_lem p s safe p_out fresh = elim (Bool-cases (is_present p s)) [
      | inl present ↦ rw present (move_to_backup_lem p (s.disk p) s safe p_out fresh refl)
      | inr absent ↦ rw absent (
        safe,
        (record { deletions = refl; created = refl }, guarded_by_absence p s safe fresh absent),
      )
    ]

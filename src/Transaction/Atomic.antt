-- ===== src/Transaction/Atomic.antt =====
-- A commit that raises leaves at every path what stood there before.
use core_pip.Prelude.{
  ℕ, ◌≡◌, ◌∙◌, ap, sym, refl, subst, ◌⊎◌, inl, inr, Bool, true, false, not, Option, [], Text,
  text_ord, if◌then◌else◌, arith,
}
use core_pip.Controls.{has}
use core_pip.Hashes.{sorted, every-sorted}
use core_pip.Transaction.FileSystem.{Node}
use core_pip.Transaction.Staging.{InstallError, already_finished}
use core_pip.Transaction.Rollback.{State, Run, returned, raised, is_under, rollback}
use core_pip.Transaction.Commit.{
  validate, install_items, delete_all, commit_body, rolled_back, commit,
}
use core_pip.Transaction.Recovered.{AreOutside, rollback_lem}
use core_pip.Transaction.Ready.{is_sturdy, IsReady, Safe-visible, never_both, ready_Safe}
use core_pip.Transaction.Safe.{Leaves, Leaves-continue, Safe}
use core_pip.Transaction.Validated.{IsValidated, validate_lem}
use core_pip.Transaction.Installed.{
  destinations, AreApart, IsInstalled, install_items_lem, delete_all_lem,
}

pub allowed :
    (b : Bool) (s s' : State) (r : Run)
    → (if b then raised already_finished s else r) ≡ returned s'
    → r ≡ returned s'
allowed true s s' r run = cc
allowed false s s' r run = run

pub not_rolled_back :
    (normalized dirname : Text → Text) (cross_device : Text → Text → Bool) (umask : ℕ)
    (fault : ℕ → Option ℕ) (r : Run) (s' : State)
    → rolled_back normalized dirname cross_device umask fault r ≡ returned s'
    → r ≡ returned s'
not_rolled_back normalized dirname cross_device umask fault (returned s) s' run = run
not_rolled_back normalized dirname cross_device umask fault (raised e s) s' run = cc

pub left_returned :
    (P R : State → Type 0) (r : Run) (s' : State) → r ≡ returned s' → Leaves P R r → R s'
left_returned P R (returned s) s' run left = let same : s ≡ s' = cc in subst R same left
left_returned P R (raised e s) s' run left = cc

refused :
    (b : Bool) (s s' : State) (r : Run) (e : InstallError)
    → (if b then raised already_finished s else r) ≡ raised e s'
    → (s ≡ s') ⊎ (r ≡ raised e s')
refused true s s' r e run = inl cc
refused false s s' r e run = inr run

-- What `rollback` brings back.
rollback-Safe :
    (temporary q : Text) (before : Option Node) (s : State)
    → Safe temporary q before s
    → is_under temporary q ≡ false
    → is_sturdy before ≡ true
    → (rollback s).disk q ≡ before
rollback-Safe temporary q before s safe outside sturdy =
    rollback_lem q s (rw safe.at_temporary outside) (rw safe.at_temporary safe.numbered)
      (rw safe.at_temporary safe.apart) (Safe-visible temporary q before s safe sturdy)
    ∙ safe.kept

rolled_back_lem :
    (normalized dirname : Text → Text) (cross_device : Text → Text → Bool) (umask : ℕ)
    (fault : ℕ → Option ℕ) (temporary q : Text) (before : Option Node) (R : State → Type 0)
    (r : Run) (e : InstallError) (s' : State)
    → Leaves (Safe temporary q before) R r
    → is_under temporary q ≡ false
    → is_sturdy before ≡ true
    → rolled_back normalized dirname cross_device umask fault r ≡ raised e s'
    → s'.disk q ≡ before
rolled_back_lem normalized dirname cross_device umask fault temporary q before R (returned s) e s'
      safe outside sturdy run =
    cc
rolled_back_lem normalized dirname cross_device umask fault temporary q before R (raised e' s) e s'
      safe outside sturdy run =
    let same : rollback s ≡ s' = cc in
    ap (λ u. u.disk q) (sym same) ∙ rollback-Safe temporary q before s safe outside sturdy

module _ (normalized dirname : Text → Text) (cross_device : Text → Text → Bool) (umask : ℕ)
    (fault : ℕ → Option ℕ) (q : Text) where
  -- Where the body of the `try` raises or does not finish, `rollback` can bring back what stood there.
  IsUndoable : Bool → State → State → Type 0
  IsUndoable finalize s s' =
      finalize ≡ false → Safe s.transaction.temporary_internal q (s.disk q) s'

  commit_body-Leaves :
      (finalize : Bool) (s : State)
      → IsReady s.transaction
      → is_under s.transaction.temporary_internal q ≡ false
      → AreApart cross_device fault s.transaction.temporary_internal q s.transaction.staged_internal
      → Leaves
          (Safe s.transaction.temporary_internal q (s.disk q))
          (IsUndoable finalize s)
          (commit_body normalized dirname cross_device umask fault finalize s)
  unfolding commit_body IsUndoable
  commit_body-Leaves finalize s ready outside apart =
      let t = s.transaction in
      let temporary = t.temporary_internal in
      let before = s.disk q in
      let good = Safe temporary q before in
      let undoable = IsUndoable finalize s in
      Leaves-continue good
        (IsValidated normalized dirname cross_device umask fault temporary q before s) undoable
        (validate normalized dirname cross_device umask fault s) _
        (validate_lem normalized dirname cross_device umask fault temporary q before s
          (ready_Safe s q ready) ready.untouched)
        λ s1 safe1 (same, once).
          let items = s1.transaction.staged_internal in
          Leaves-continue good
            (IsInstalled normalized dirname cross_device umask fault temporary q before outside
              items s1)
            undoable (install_items normalized dirname cross_device umask fault [] items s1) _
            (install_items_lem normalized dirname cross_device umask fault temporary q before
              outside items [] s1 safe1 (rw same.items apart) (rw same.items ready.staged.distinct)
              (unfold has in rw same.untouched.created (ground arith)))
            λ s2 safe2 installed.
              let out : AreOutside temporary (sorted s2.transaction.deletions) =
                every-sorted (λ p. not (is_under temporary p)) s2.transaction.deletions
                ∙ rw (installed.deletions, same.deletions) ready.deletions_outside in
              Leaves-continue good (λ s'. Unit {0}) undoable
                (delete_all normalized dirname cross_device umask fault
                  (sorted s2.transaction.deletions) s2)
                _
                (delete_all_lem normalized dirname cross_device umask fault temporary q before
                  outside (sorted s2.transaction.deletions) s2 safe2 out
                  (rw installed.deletions (
                    never_both q (destinations items) s2.transaction.created_internal
                      s1.transaction.staged_destinations s1.transaction.deletions
                      (installed.created ∙ unfold has in rw same.untouched.created (ground arith))
                      (rw (same.items, same.destinations) (ready.staged.agree q)) once)))
                λ s3 safe3 u e. rw e safe3

  pub commit-restores :
      (finalize : Bool) (s s' : State) (e : InstallError)
      → IsReady s.transaction
      → is_under s.transaction.temporary_internal q ≡ false
      → AreApart cross_device fault s.transaction.temporary_internal q s.transaction.staged_internal
      → is_sturdy (s.disk q) ≡ true
      → commit normalized dirname cross_device umask fault finalize s ≡ raised e s'
      → s'.disk q ≡ s.disk q
  unfolding commit
  commit-restores finalize s s' e ready outside apart sturdy run =
      elim (refused s.transaction.finished s s' _ e run) [
        | inl same ↦ ap (λ u. u.disk q) (sym same)
        | inr run ↦
            rolled_back_lem normalized dirname cross_device umask fault
              s.transaction.temporary_internal q (s.disk q) (IsUndoable finalize s)
              (commit_body normalized dirname cross_device umask fault finalize s) e s'
              (commit_body-Leaves finalize s ready outside apart) outside sturdy run
      ]

  -- If a commit that is not to be finalized returns, rolling back then leaves at the path `q` what
  -- stood there before the commit. (The transaction was staged by its methods and nothing was
  -- committed; all that is put or deleted stands outside the temporary directory, and so does `q`; no
  -- staged file is moved from `q` or from the temporary directory; for each, nothing is copied, or a
  -- call that raises has done nothing; and at `q` stands nothing, or what is seen in the temporary
  -- directory too.)
  pub commit-rollback :
      (s s' : State)
      → IsReady s.transaction
      → is_under s.transaction.temporary_internal q ≡ false
      → AreApart cross_device fault s.transaction.temporary_internal q s.transaction.staged_internal
      → is_sturdy (s.disk q) ≡ true
      → commit normalized dirname cross_device umask fault false s ≡ returned s'
      → (rollback s').disk q ≡ s.disk q
  unfolding commit IsUndoable
  commit-rollback s s' ready outside apart sturdy run =
      let over = allowed s.transaction.finished s s' _ run in
      let body = not_rolled_back normalized dirname cross_device umask fault _ s' over in
      rollback-Safe s.transaction.temporary_internal q (s.disk q) s'
        (left_returned _ (IsUndoable false s) _ s' body
          (commit_body-Leaves false s ready outside apart) refl)
        outside sturdy

-- ===== src/Transaction/Whole.antt =====
-- A commit as a whole: it leaves all of its changes at a path, or none.
use core_pip.Prelude.{ℕ, ◌≡◌, refl, Bool, false, true, Option, [], Text, text_ord}
use core_pip.Caches.{lookup}
use core_pip.Transaction.Staging.{InstallError}
use core_pip.Transaction.Rollback.{State, Run, returned, raised, is_under}
use core_pip.Transaction.Commit.{commit}
use core_pip.Transaction.Safe.{Leaves}
use core_pip.Transaction.Installed.{AreApart}
use core_pip.Transaction.Staged.{IsStaged}
use core_pip.Transaction.Ready.{is_sturdy, IsReady}
use core_pip.Transaction.Atomic.{allowed, not_rolled_back, left_returned, commit-restores}
use core_pip.Transaction.Outcome.{Holds}
use core_pip.Transaction.Placed.{AreSettled}
use core_pip.Transaction.Finished.{outcome_at, commit_body-Returns}

Leaves-cases :
    (P R : State → Type 0) (r : Run)
    → ((e : InstallError) (s : State) → r ≡ raised e s → P s)
    → ((s : State) → r ≡ returned s → R s)
    → Leaves P R r
Leaves-cases P R (returned s) fails ends = ends s refl
Leaves-cases P R (raised e s) fails ends = fails e s refl

module _ (normalized dirname : Text → Text) (cross_device : Text → Text → Bool) (umask : ℕ)
    (fault : ℕ → Option ℕ) (q : Text) (finalize : Bool) (s : State)
    (outside : is_under s.transaction.temporary_internal q ≡ false) where
  -- At the start of a commit
  starts : s.transaction.destination_presence ≡ [] → Holds s.transaction q (s.disk q) (s.disk q) s
  unfolding lookup
  starts unlisted = record {
    orders = record { temporary = refl; items = refl; destinations = refl; deletions = refl };
    there = refl;
    listed = rw unlisted refl;
  }

  pub commit-outcome :
      (s' : State)
      → IsStaged s.transaction
      → s.transaction.destination_presence ≡ []
      → AreSettled q s.transaction.staged_internal
      → commit normalized dirname cross_device umask fault finalize s ≡ returned s'
      → s'.disk q
        ≡ outcome_at normalized dirname cross_device umask fault s.transaction q (s.disk q) outside
  unfolding commit
  commit-outcome s' staged unlisted settled run =
      let over = allowed s.transaction.finished s s' _ run in
      let body = not_rolled_back normalized dirname cross_device umask fault _ s' over in
      left_returned _ _ _ s' body (
        commit_body-Returns normalized dirname cross_device umask fault s.transaction q (s.disk q)
          outside finalize s staged settled (starts unlisted))

  -- A commit that raises, at whichever call of the operating system, leaves at the path `q` what
  -- stood there before. One that returns leaves there what the orders say: nothing if `q` is deleted;
  -- otherwise the bytes of the last staged file that is written there, with its mode, or 0o666 without
  -- the bits of the umask; and if none is, what stood there. The conditions: the transaction was
  -- staged by its methods and nothing was committed; all that is put or deleted stands outside the
  -- temporary directory, and so does `q`; for each staged file, nothing is copied, or a call that
  -- raises has done nothing; at `q` stands nothing, or what is seen in the temporary directory too;
  -- and no staged file is moved or cloned to `q`, or moved from it.
  pub commit-Leaves :
      IsReady s.transaction
      → AreApart cross_device fault s.transaction.temporary_internal q s.transaction.staged_internal
      → is_sturdy (s.disk q) ≡ true
      → AreSettled q s.transaction.staged_internal
      → Leaves
          (λ s'. s'.disk q ≡ s.disk q)
          (λ s'.
            s'.disk q
            ≡ outcome_at normalized dirname cross_device umask fault s.transaction q
                (s.disk q)
                outside)
          (commit normalized dirname cross_device umask fault finalize s)
  commit-Leaves ready apart sturdy settled =
      Leaves-cases _ _ (commit normalized dirname cross_device umask fault finalize s)
        (λ e s' run.
          commit-restores normalized dirname cross_device umask fault q finalize s s' e ready
            outside apart sturdy run)
        (λ s' run. commit-outcome s' ready.staged ready.unlisted settled run)

-- ===== src/Transaction/Lost.antt =====
-- The backups that `rollback` does not bring back: where they are now, nothing is seen of them.
use core_pip.Prelude.{
  ◌≡◌, ◌∙◌, refl, ℕ, suc, ◌+◌, Bool, true, false, ◌&&◌, Option, none, some, List, [], ◌∷◌, Text,
  text_ord, ◌=?◌, =?_iff, length, if◌then◌else◌, arith,
}
use core_pip.Controls.{has}
use core_pip.Transaction.FileSystem.{Node, Disk, put, cut_short, is_visible_backup}
use core_pip.Transaction.Staging.{cloned, os_error}
use core_pip.Transaction.Commit.{place, put_source}
use core_pip.Transaction.Rollback.{
  State, raised, continue, is_under, unlink_all, restore_one, restore_all, rollback,
}
use core_pip.Transaction.Recovered.{
  is_under-backup_path, under_ne, IsNumbered, restore_one_at, unlink_all_at, AreOutside,
  has_outside,
}

-- No backup of the path is seen by `os.path.exists`.
abbrev pub AreHidden : Text → Disk → List (Text × Text) → Type 0
AreHidden q d [] = Unit {0}
AreHidden q d ((o, b) ∷ l) = ((q =? o && is_visible_backup (d b)) ≡ false) × AreHidden q d l

still_hidden :
    (t q o b : Text) (d : Disk) (l : List (Text × Text))
    → is_under t o ≡ false
    → IsNumbered t l
    → AreHidden q d l
    → AreHidden q (restore_one o b d) l
still_hidden t q o b d [] out n h = tt
still_hidden t q o b d ((o', x) ∷ l) out (named, o_out, n) (here, h) =
    let x_o : (x =? o) ≡ false =
      under_ne t x o (rw named (is_under-backup_path t (length l))) out in
    (ground (arith, restore_one_at o b x d, x_o, here), still_hidden t q o b d l out n h)

restore_all_hidden :
    (t q : Text) (l : List (Text × Text)) (d : Disk)
    → is_under t q ≡ false
    → IsNumbered t l
    → AreHidden q d l
    → restore_all l d q ≡ d q
unfolding restore_all
restore_all_hidden t q [] d out n h = refl
restore_all_hidden t q ((o, b) ∷ l) d out (named, o_out, n) (here, h) =
    let q_b : (b =? q) ≡ false =
      under_ne t b q (rw named (is_under-backup_path t (length l))) out in
    restore_all_hidden t q l (restore_one o b d) out n (still_hidden t q o b d l o_out n h)
    ∙ ground (arith, restore_one_at o b q d, here, q_b, =?_iff b q, =?_iff q b)

kept_hidden :
    (t q : Text) (created : List Text) (d : Disk) (l : List (Text × Text))
    → AreOutside t created
    → IsNumbered t l
    → AreHidden q d l
    → AreHidden q (unlink_all created d) l
kept_hidden t q created d [] apart n h = tt
kept_hidden t q created d ((o, b) ∷ l) apart (named, out, n) (here, h) =
    let under : is_under t b ≡ true = rw named (is_under-backup_path t (length l)) in
    (
      rw (unlink_all_at created d b, has_outside t b created apart under) here,
      kept_hidden t q created d l apart n h,
    )

-- Rolling back leaves nothing at a path that the transaction put, and what stands there at any
-- other, if no backup of the path is seen in the temporary directory, as none of a relative or a
-- dangling link is: the path itself stands outside the temporary directory, the backups are
-- numbered and what the transaction created stands outside too.
pub rollback-AreHidden :
    (q : Text) (s : State)
    → let t = s.transaction in
      is_under t.temporary_internal q ≡ false
      → IsNumbered t.temporary_internal t.backups
      → AreOutside t.temporary_internal t.created_internal
      → AreHidden q s.disk t.backups
      → (rollback s).disk q ≡ (if has q t.created_internal then none else s.disk q)
unfolding rollback
rollback-AreHidden q s out n apart hidden =
    let t = s.transaction in
    let d = unlink_all t.created_internal s.disk in
    ground (
      arith,
      restore_all_hidden t.temporary_internal q t.backups d out n
          (kept_hidden t.temporary_internal q t.created_internal s.disk t.backups apart n hidden),
      unlink_all_at t.created_internal s.disk q,
    )

module _ (normalized dirname : Text → Text) (cross_device : Text → Text → Bool) (umask : ℕ)
    (fault : ℕ → Option ℕ) where
  -- If the clone of a file breaks off behind some of its bytes, putting it in place raises, and behind
  -- `rollback` those bytes still stand at the destination. (The destination stands outside the
  -- temporary directory, the transaction has put nothing at it and no backup of it is seen, the
  -- backups are numbered, and what the transaction created stands outside too.)
  pub place-cut_short :
      (source destination : Text) (mode : Option ℕ) (s : State) (n : Node) (k : ℕ)
      → s.disk source ≡ some n
      → fault s.calls ≡ some (suc k)
      → let t = s.transaction in
        is_under t.temporary_internal destination ≡ false
        → IsNumbered t.temporary_internal t.backups
        → AreOutside t.temporary_internal t.created_internal
        → has destination t.created_internal ≡ false
        → AreHidden destination (put destination (some (cut_short k n)) s.disk) t.backups
        → (s' : State) × (place normalized dirname cross_device umask fault
              (cloned source)
              destination
              mode
              s
            ≡ raised os_error s')
          × ((rollback s').disk destination ≡ some (cut_short k n))
  unfolding place
  place-cut_short source destination mode s n k there fails out numbered apart new hidden =
      let s' : State = record s {
        disk = put destination (some (cut_short k n)) s.disk;
        calls = s.calls + 1;
      } in
      (
        s',
        rw (there, put_source, fails, continue) (ground arith),
        rollback-AreHidden destination s' out numbered apart hidden
            ∙ (unfold put in ground (arith, new, =?_iff destination destination)),
      )

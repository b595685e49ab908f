-- ===== src/Transaction/Rollback.antt =====
-- The state of a commit, and `rollback`.
use core_pip.Prelude.{
  ℕ, Bool, true, none, List, [], ◌∷◌, ◌++◌, Text, text_ord, starts_with, if◌then◌else◌,
}
use core_pip.Version.Decimal.{str_of}
use core_pip.Transaction.FileSystem.{Disk, put, is_visible_backup}
use core_pip.Transaction.Staging.{InstallTransaction, InstallError}

-- The transaction with the disk, and the number of calls of the operating system so far.
pub record State : Type 0 where
  pub disk : Disk
  pub transaction : InstallTransaction
  pub calls : ℕ

pub data Run : Type 0 where
  returned : State → Run
  raised : InstallError → State → Run

-- One statement behind another
abbrev pub continue : Run → (State → Run) → Run
continue (returned s) rest = rest s
continue (raised e s) rest = raised e s

abbrev pub with_transaction : (InstallTransaction → InstallTransaction) → State → Run
with_transaction f s = returned (record s { transaction = f s.transaction })

-- `os.path.join(self.temporary_internal, str(n))`
abbrev pub backup_path : Text → ℕ → Text
backup_path temporary n = temporary ++ (b'/' ∷ str_of n)

-- The path stands in the temporary directory.
abbrev pub is_under : Text → Text → Bool
is_under temporary q = starts_with (temporary ++ (b'/' ∷ [])) q

-- `finish_successfully`: the temporary directory goes.
abbrev pub finish_successfully : State → State
finish_successfully s = record s {
  disk = λ q. if is_under s.transaction.temporary_internal q then none else s.disk q;
  transaction = record s.transaction { finished = true };
}

-- The first loop of `rollback`; a path where nothing stands is skipped.
unfoldable pub unlink_all : List Text → Disk → Disk
unlink_all [] d = d
unlink_all (path ∷ rest) d = unlink_all rest (put path none d)

-- One round of the second loop
abbrev pub restore_one : Text → Text → Disk → Disk
restore_one original backup d =
    if is_visible_backup (d backup) then put original (d backup) (put backup none d) else d

unfoldable pub restore_all : List (Text × Text) → Disk → Disk
restore_all [] d = d
restore_all ((original, backup) ∷ rest) d = restore_all rest (restore_one original backup d)

-- The calls of `rollback` itself are taken to succeed.
unfoldable pub rollback : State → State
unfolding unlink_all restore_all
rollback s = finish_successfully (record s {
  disk = restore_all s.transaction.backups (unlink_all s.transaction.created_internal s.disk);
})

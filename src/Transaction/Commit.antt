-- ===== src/Transaction/Commit.antt =====
-- `validate` and `commit`.
use Prim.Native.Nat.{bit_and}
use core_pip.Prelude.{
  ℕ, ◌+◌, ◌-◌, Bool, true, false, not, ◌&&◌, Option, none, some, List, [], ◌∷◌, Text, text_ord,
  ◌=?◌, nat_beq, some_of, is_some, length, if◌then◌else◌,
}
use core_pip.Caches.{lookup, insert}
use core_pip.Controls.{TextSet, has, add}
use core_pip.Hashes.{sorted}
use core_pip.Transaction.FileSystem.{
  Bytes, Node, file, Disk, put, contents_at, is_file, is_visible, cut_short, with_mode,
}
use core_pip.Transaction.Rollback.{
  State, Run, returned, raised, continue, with_transaction, backup_path, finish_successfully,
  rollback,
}
use core_pip.Transaction.Staging.{
  Payload, moved, cloned, written, StagedFile, InstallTransaction, missing_source, unrelated_file,
  replaces_and_deletes, already_finished, os_error, record_created,
}

abbrev pub nothing_left : ℕ → Disk → Disk
nothing_left k d = d

abbrev pub same_bytes : Option Bytes → Option Bytes → Bool
same_bytes (some a) (some b) = a =? b
same_bytes _ _ = false

abbrev pub lacks_source : Payload → Disk → Bool
lacks_source (moved source) d = not (is_file (d source))
lacks_source (cloned source) d = not (is_file (d source))
lacks_source (written contents) d = false

abbrev pub source_contents : Payload → Disk → Option Bytes
source_contents (moved source) d = contents_at (d source)
source_contents (cloned source) d = contents_at (d source)
source_contents (written contents) d = some contents

abbrev pub record_presence : StagedFile → State → State
record_presence item s = record s {
  transaction = record s.transaction {
    destination_presence =
        insert item.destination_text (is_some (s.disk item.destination_text))
          s.transaction.destination_presence;
  };
}

abbrev pub overlaps : InstallTransaction → Bool
overlaps t = some_of (λ p. has p t.deletions) t.staged_destinations

-- The tests at the head of `backup_if_needed`
abbrev pub is_present : Text → State → Bool
is_present path s = elim (lookup path s.transaction.destination_presence) [
  | some present ↦ present
  | none ↦ is_some (s.disk path)
]

abbrev pub next_backup : InstallTransaction → Text
next_backup t = backup_path t.temporary_internal (length t.backups)

abbrev pub mode_or_default : Option ℕ → ℕ
mode_or_default none = 438
mode_or_default (some mode) = mode

-- What a copy to a path leaves if it raises: nothing at 0, and otherwise a file that is cut short
abbrev pub part_left : Text → Node → ℕ → Disk → Disk
part_left path n k d = if nat_beq k 0 then d else put path (some (cut_short (k - 1) n)) d

-- `normcase(realpath(path))`, `os.path.dirname`, whether two paths are on different devices, the
-- umask, and the faults: `fault n` says whether the call number `n` raises, and what it did before.
module _ (normalized dirname : Text → Text) (cross_device : Text → Text → Bool) (umask : ℕ)
    (fault : ℕ → Option ℕ) where
  -- A call with its effect, and what is left if it raises.
  abbrev pub attempt : (ℕ → Disk → Disk) → (Disk → Disk) → State → Run
  attempt left effect s = elim (fault s.calls) [
    | none ↦ returned (record s { disk = effect s.disk; calls = s.calls + 1 })
    | some k ↦ raised os_error (record s { disk = left k s.disk; calls = s.calls + 1 })
  ]

  -- The checks of one destination, behind `os.lstat`
  abbrev pub is_unrelated : InstallTransaction → StagedFile → Option Bytes → Option Node → Bool
  is_unrelated t item source none = false
  is_unrelated t item source (some n) =
      is_visible n
      && not (has (normalized item.destination_text) t.owned)
      && not (is_file (some n) && same_bytes (contents_at (some n)) source)

  -- One round of the loop of `validate`. The call that may raise is `os.lstat` with the reads.
  abbrev pub validate_item : StagedFile → State → Run
  validate_item item s =
      if lacks_source item.payload s.disk
      then raised missing_source s
      else continue (attempt nothing_left (λ d. d) s) λ s'.
        if is_unrelated s'.transaction item (source_contents item.payload s'.disk)
          (s'.disk item.destination_text)
        then raised unrelated_file (record_presence item s')
        else returned (record_presence item s')

  unfoldable pub validate_items : List StagedFile → State → Run
  validate_items [] s = returned s
  validate_items (item ∷ items) s = continue (validate_item item s) (validate_items items)

  unfoldable pub validate : State → Run
  unfolding validate_items
  validate s =
      continue (validate_items s.transaction.staged_internal s)
        λ s'. if overlaps s'.transaction then raised replaces_and_deletes s' else returned s'

  -- `shutil.move(path, backup)` with the record of it
  abbrev pub move_to_backup : Text → Option Node → State → Run
  move_to_backup path none s = raised os_error s
  move_to_backup path (some n) s =
      continue
        (attempt nothing_left (λ d. put path none (put (next_backup s.transaction) (some n) d)) s)
        (with_transaction λ t. record t { backups = (path, next_backup t) ∷ t.backups })

  unfoldable pub backup_if_needed : Text → State → Run
  backup_if_needed path s =
      if is_present path s then move_to_backup path (s.disk path) s else returned s

  -- `os.makedirs` of the parent, once for each
  abbrev pub make_parent : TextSet → Text → State → Run
  make_parent created_directories destination s =
      if has (dirname destination) created_directories
      then returned s
      else attempt nothing_left (λ d. d) s

  -- The node that a source puts at the destination, and what a copy that fails may leave of it
  abbrev pub put_source : Payload → Text → Option Node → State → Run
  put_source payload destination none s = raised os_error s
  put_source (moved source) destination (some n) s =
      attempt (λ k d. if cross_device source destination then part_left destination n k d else d)
        (λ d. put destination (some n) (put source none d)) s
  put_source (cloned source) destination (some n) s =
      attempt (part_left destination n) (λ d. put destination (some n) d) s
  put_source (written contents) destination (some n) s = returned s

  abbrev pub chmod : Text → ℕ → State → Run
  chmod path mode s = attempt nothing_left (λ d. put path (with_mode mode (d path)) d) s

  abbrev pub chmod_if : Bool → Text → Option ℕ → State → Run
  chmod_if needed path none s = returned s
  chmod_if needed path (some mode) s = if needed then chmod path mode s else returned s

  -- `mode & ~umask`
  abbrev pub masked : ℕ → ℕ
  masked mode = mode - bit_and mode umask

  -- `_write_contents`, where nothing stands any more: a new file, or a part of it
  abbrev pub write_contents : Text → Bytes → ℕ → State → Run
  write_contents path contents mode =
      attempt (part_left path (file contents (masked mode)))
        (λ d. put path (some (file contents (masked mode))) d)

  -- `item.mode & umask` is not zero.
  abbrev pub is_stripped : Option ℕ → Bool
  is_stripped none = false
  is_stripped (some mode) = not (nat_beq (bit_and mode umask) 0)

  -- The two branches behind `makedirs`
  unfoldable pub place : Payload → Text → Option ℕ → State → Run
  place (written contents) destination mode s =
      continue (with_transaction (record_created destination) s) λ s1.
        continue (write_contents destination contents (mode_or_default mode) s1)
          (chmod_if (is_stripped mode) destination mode)
  place (moved source) destination mode s =
      continue (put_source (moved source) destination (s.disk source) s) λ s1.
        continue (with_transaction (record_created destination) s1) (chmod_if true destination mode)
  place (cloned source) destination mode s =
      continue (put_source (cloned source) destination (s.disk source) s) λ s1.
        continue (with_transaction (record_created destination) s1) (chmod_if true destination mode)

  -- The loop over the staged files
  unfoldable pub install_items : TextSet → List StagedFile → State → Run
  install_items directories [] s = returned s
  install_items directories (item ∷ items) s =
      continue (backup_if_needed item.destination_text s) λ s1.
        continue (make_parent directories item.destination_text s1) λ s2.
          continue (place item.payload item.destination_text item.mode s2)
            (install_items (add (dirname item.destination_text) directories) items)

  -- The loop over the deletions. The empty directories above them, which go too, are not represented.
  unfoldable pub delete_all : List Text → State → Run
  delete_all [] s = returned s
  delete_all (path ∷ paths) s = continue (backup_if_needed path s) (delete_all paths)

  -- The body of the `try`
  unfoldable pub commit_body : Bool → State → Run
  unfolding validate backup_if_needed place install_items delete_all
  commit_body finalize s = continue (validate s) λ s1.
      continue (install_items [] s1.transaction.staged_internal s1) λ s2.
        continue (delete_all (sorted s2.transaction.deletions) s2)
          λ s3. returned (if finalize then finish_successfully s3 else s3)

  abbrev pub rolled_back : Run → Run
  rolled_back (returned s) = returned s
  rolled_back (raised e s) = raised e (rollback s)

  unfoldable pub commit : Bool → State → Run
  unfolding commit_body
  commit finalize s =
      if s.transaction.finished
      then raised already_finished s
      else rolled_back (commit_body finalize s)

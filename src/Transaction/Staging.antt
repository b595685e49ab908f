-- ===== src/Transaction/Staging.antt =====
-- `StagedFile` and the methods of `InstallTransaction` that stage.
use core_pip.Prelude.{
  ℕ, Bool, false, Option, none, some, List, [], ◌∷◌, ◌++◌, Text, Result, ok, err, if◌then◌else◌,
}
use core_pip.Caches.{Table}
use core_pip.Controls.{TextSet, has, add}
use core_pip.Transaction.FileSystem.{Bytes}

-- What is put at the destination: a source that is moved, a source that is cloned, or bytes. These
-- are the combinations of `source_text`, `contents` and `clone` that the methods make.
pub data Payload : Type 0 where
  moved cloned : Text → Payload
  written : Bytes → Payload

pub record StagedFile : Type 0 where
  pub payload : Payload
  pub destination_text : Text
  pub mode : Option ℕ

-- `backups` and `created_internal` are held newest first, as `rollback` reads them.
pub record InstallTransaction : Type 0 where
  pub owned : TextSet
  pub staged_internal : List StagedFile
  pub staged_destinations : TextSet
  pub deletions : TextSet
  pub backups : List (Text × Text)
  pub created_internal : List Text
  pub destination_presence : Table Text Bool
  pub temporary_internal : Text
  pub finished : Bool

pub data InstallError : Type 0 where
  duplicate_destination missing_source unrelated_file : InstallError
  replaces_and_deletes already_finished os_error : InstallError

-- `InstallTransaction(owned_paths=...)`, with its temporary directory
abbrev pub started : TextSet → Text → InstallTransaction
started owned temporary = record {
  owned = owned;
  staged_internal = [];
  staged_destinations = [];
  deletions = [];
  backups = [];
  created_internal = [];
  destination_presence = [];
  temporary_internal = temporary;
  finished = false;
}

-- `add`, `add_contents` and `add_clone`, which differ in the payload
unfoldable pub stage : StagedFile → InstallTransaction → Result InstallError InstallTransaction
stage item t =
    if has item.destination_text t.staged_destinations
    then err duplicate_destination
    else ok (record t {
      staged_internal = t.staged_internal ++ (item ∷ []);
      staged_destinations = add item.destination_text t.staged_destinations;
    })

-- `delete`
abbrev pub delete : Text → InstallTransaction → InstallTransaction
delete path t = record t { deletions = add path t.deletions }

-- `record_created`
abbrev pub record_created : Text → InstallTransaction → InstallTransaction
record_created path t = record t { created_internal = path ∷ t.created_internal }

-- `items.update(others)`
abbrev pub update_set : TextSet → TextSet → TextSet
update_set items [] = items
update_set items (t ∷ others) = add t (update_set items others)

-- The loop of `adopt`, with the exception that ends it.
abbrev pub stage_all :
    List StagedFile → InstallTransaction → InstallTransaction × Option InstallError
stage_all [] t = (t, none)
stage_all (item ∷ items) t = elim (stage item t) [
  | err e ↦ (t, some e)
  | ok t' ↦ stage_all items t'
]

abbrev pub adopt_deletions :
    TextSet → InstallTransaction × Option InstallError → InstallTransaction × Option InstallError
adopt_deletions paths (t, some e) = (t, some e)
adopt_deletions paths (t, none) = (record t { deletions = update_set t.deletions paths }, none)

unfoldable pub adopt :
    InstallTransaction → InstallTransaction → InstallTransaction × Option InstallError
unfolding stage
adopt t other = adopt_deletions other.deletions (
    stage_all other.staged_internal (record t {
      owned = update_set t.owned other.owned;
      created_internal = other.created_internal ++ t.created_internal;
    }))

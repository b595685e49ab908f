-- ===== src/DirectUrl/Defs.antt =====
-- The records of src/cpip/core/direct_url.py, and how they are read.
use core_pip.Prelude.{
  partition, ℕ, ◌+◌, Bool, false, Option, none, some, [], ◌∷◌, Text, codes, nat_beq, is_nil,
  is_some, Result, ok, err, and_then, if◌then◌else◌,
}
use core_pip.Caches.{Table}
use core_pip.DirectUrl.Json.{Json, boolean, string, object, JsonDict, no_entries, entry, get, given}

-- A `DirectUrlValidationError` by what it names, and the `ValueError` of `urlsplit`
pub data DirectUrlError : Type 0 where
  missing_value : Text → DirectUrlError
  unexpected_type : Text → DirectUrlError
  invalid_hash : DirectUrlError
  not_one_info : DirectUrlError
  invalid_url : DirectUrlError

pub record ArchiveInfo : Type 0 where
  pub hash : Option Text
  pub hashes : Option (Table Text Text)

pub record DirInfo : Type 0 where
  pub editable : Bool

pub record VcsInfo : Type 0 where
  pub vcs : Text
  pub commit_id : Text
  pub requested_revision : Option Text

pub record DirectUrl : Type 0 where
  pub url : Text
  pub info_subdir : Option Text
  pub archive_info : Option ArchiveInfo
  pub dir_info : Option DirInfo
  pub vcs_info : Option VcsInfo

abbrev pub subdirectory : DirectUrl → Option Text
subdirectory d = d.info_subdir

abbrev pub is_local_editable : DirectUrl → Bool
is_local_editable d = elim d.dir_info [ none ↦ false | some info ↦ info.editable ]

-- `expect_string` on the value that stands under the key
abbrev pub expect_string : Text → Option Json → Result DirectUrlError Text
expect_string label (some (string t)) = if is_nil t then err (missing_value label) else ok t
expect_string label _ = err (missing_value label)

-- The first test of `ArchiveInfo.from_dict`: the text, and the table of its one hash
abbrev pub read_hash : Option Json → Result DirectUrlError (Option Text × Option (Table Text Text))
read_hash none = ok (none, none)
read_hash (some (string t)) = elim (partition b'=' t) [
  | none ↦ err invalid_hash
  | some (algorithm, digest) ↦ ok (some t, some ((algorithm, digest) ∷ []))
]
read_hash (some _) = err (unexpected_type (codes "archive_info.hash"))

-- `str(value)` of a value that is no text is given.
module _ (str : Json → Text) where
  abbrev pub as_text : Json → Text
  as_text (string t) = t
  as_text v = str v

  abbrev pub texts_of : JsonDict → Table Text Text
  texts_of no_entries = []
  texts_of (entry k v d) = (k, as_text v) ∷ texts_of d

  -- The second test, which overrides the first
  abbrev pub read_hashes :
      Option (Table Text Text) → Option Json → Result DirectUrlError (Option (Table Text Text))
  read_hashes before none = ok before
  read_hashes before (some (object d)) = ok (some (texts_of d))
  read_hashes before (some _) = err (unexpected_type (codes "archive_info.hashes"))

  unfoldable pub archive_info_from_dict : JsonDict → Result DirectUrlError ArchiveInfo
  archive_info_from_dict raw = and_then (read_hash (given (get (codes "hash") raw))) (λ read.
      and_then (read_hashes read.1 (given (get (codes "hashes") raw)))
        (λ hashes. ok (record { hash = read.0; hashes = hashes })))

abbrev pub read_editable : Option Json → Result DirectUrlError DirInfo
read_editable none = ok (record { editable = false })
read_editable (some (boolean b)) = ok (record { editable = b })
read_editable (some _) = err (unexpected_type (codes "dir_info.editable"))

unfoldable pub dir_info_from_dict : JsonDict → Result DirectUrlError DirInfo
dir_info_from_dict raw = read_editable (get (codes "editable") raw)

abbrev pub read_revision : Option Json → Result DirectUrlError (Option Text)
read_revision none = ok none
read_revision (some (string t)) = ok (some t)
read_revision (some _) = err (unexpected_type (codes "vcs_info.requested_revision"))

unfoldable pub vcs_info_from_dict : JsonDict → Result DirectUrlError VcsInfo
vcs_info_from_dict raw =
    and_then (expect_string (codes "vcs_info.vcs") (get (codes "vcs") raw)) (λ vcs.
      and_then (expect_string (codes "vcs_info.commit_id") (get (codes "commit_id") raw)) (λ id.
        and_then (read_revision (given (get (codes "requested_revision") raw)))
          (λ revision. ok (record { vcs = vcs; commit_id = id; requested_revision = revision }))))

-- `if "archive_info" in data:` and its like
abbrev pub read_info :
    {A : Type 0}
    → Text
    → (JsonDict → Result DirectUrlError A)
    → Option Json
    → Result DirectUrlError (Option A)
read_info label read none = ok none
read_info label read (some (object d)) = and_then (read d) (λ info. ok (some info))
read_info label read (some _) = err (unexpected_type label)

abbrev counted : {A : Type 0} → Option A → ℕ
counted o = if is_some o then 1 else 0

unfoldable pub validate : DirectUrl → Result DirectUrlError (Unit {0})
validate d =
    if nat_beq (counted d.vcs_info + counted d.archive_info + counted d.dir_info) 1
    then ok tt
    else err not_one_info

unfoldable pub validated : DirectUrl → Result DirectUrlError DirectUrl
unfolding validate
validated d = and_then (validate d) (λ _. ok d)

module _ (str : Json → Text) where
  unfoldable pub from_dict : JsonDict → Result DirectUrlError DirectUrl
  unfolding archive_info_from_dict dir_info_from_dict vcs_info_from_dict validated
  from_dict raw = and_then (expect_string (codes "url") (get (codes "url") raw)) (λ url.
      and_then
        (read_info (codes "archive_info") (archive_info_from_dict str)
          (get (codes "archive_info") raw))
        (λ archive_info.
          and_then (read_info (codes "dir_info") dir_info_from_dict (get (codes "dir_info") raw))
            (λ dir_info.
              and_then
                (read_info (codes "vcs_info") vcs_info_from_dict (get (codes "vcs_info") raw))
                (λ vcs_info. validated (record {
                  url = url;
                  info_subdir = none;
                  archive_info = archive_info;
                  dir_info = dir_info;
                  vcs_info = vcs_info;
                })))))

  -- `json.loads` of a text that holds a dictionary is given.
  unfoldable pub from_json :
      (Text → Result DirectUrlError JsonDict) → Text → Result DirectUrlError DirectUrl
  unfolding from_dict
  from_json loads value = and_then (loads value) from_dict

-- ===== src/DirectUrl/Write.antt =====
-- How a record is written: the redaction of its URL, its dictionaries, and its direct reference.
use core_pip.Prelude.{
  partition, rpartition, Bool, true, not, ◌&&◌, Option, none, some, List, [], ◌∷◌, ◌++◌, Text,
  text_ord, codes, ◌=?◌, is_nil, is_some, gt, join, map, starts_with, ends_with, Result, ok,
  and_then, pair_cmp, if◌then◌else◌,
}
use core_pip.Caches.{Table}
use core_pip.DirectUrl.Json.{
  Json, boolean, string, object, JsonDict, no_entries, entry, get, set, del,
}
use core_pip.DirectUrl.Defs.{DirectUrlError, ArchiveInfo, DirInfo, VcsInfo, DirectUrl, validate}

-- What `urlsplit` returns
pub record SplitUrl : Type 0 where
  pub scheme : Text
  pub netloc : Text
  pub path : Text
  pub query : Text
  pub fragment : Text

-- "${NAME}"
unfoldable pub is_variable : Text → Bool
unfolding ends_with
is_variable t = starts_with (codes "${") t && ends_with (codes "}") t

abbrev pub dict_of_texts : Table Text Text → JsonDict
dict_of_texts [] = no_entries
dict_of_texts ((k, v) ∷ l) = entry k (string v) (dict_of_texts l)

-- `if self.hash is not None: data["hash"] = self.hash` and its like
abbrev pub put_some : {A : Type 0} → Text → (A → Json) → Option A → JsonDict → JsonDict
put_some key write none rest = rest
put_some key write (some a) rest = entry key (write a) rest

unfoldable pub archive_info_to_dict : ArchiveInfo → JsonDict
archive_info_to_dict a =
    put_some (codes "hash") string a.hash
      (put_some (codes "hashes") (λ l. object (dict_of_texts l)) a.hashes no_entries)

unfoldable pub dir_info_to_dict : DirInfo → JsonDict
dir_info_to_dict info =
    if info.editable then entry (codes "editable") (boolean true) no_entries else no_entries

unfoldable pub vcs_info_to_dict : VcsInfo → JsonDict
vcs_info_to_dict info = entry (codes "vcs") (string info.vcs) (
    entry (codes "commit_id") (string info.commit_id)
      (put_some (codes "requested_revision") string info.requested_revision no_entries))

-- The dictionary of a record, with the URL that is written
unfoldable pub dict_of : Text → DirectUrl → JsonDict
unfolding archive_info_to_dict dir_info_to_dict vcs_info_to_dict
dict_of url d = entry (codes "url") (string url) (
    put_some (codes "archive_info") (λ a. object (archive_info_to_dict a)) d.archive_info
      (put_some (codes "dir_info") (λ a. object (dir_info_to_dict a)) d.dir_info
        (put_some (codes "vcs_info") (λ a. object (vcs_info_to_dict a)) d.vcs_info no_entries)))

-- The first of the hashes, as the legacy field has it
abbrev pub legacy_hash : Option Json → Option Text
legacy_hash (some (object (entry algorithm (string digest) l))) =
    some (algorithm ++ (b'=' ∷ digest))
legacy_hash _ = none

abbrev pub with_legacy_hash : JsonDict → JsonDict
with_legacy_hash info = elim (legacy_hash (get (codes "hashes") info)) [
  | none ↦ info
  | some t ↦ del (codes "hashes") (set (codes "hash") (string t) info)
]

abbrev pub with_legacy_info : JsonDict → Option Json → JsonDict
with_legacy_info d (some (object info)) =
    set (codes "archive_info") (object (with_legacy_hash info)) d
with_legacy_info d _ = d

-- `urlsplit`, which may raise, and `urlunsplit` are given.
module _ (urlsplit : Text → Result DirectUrlError SplitUrl) (urlunsplit : SplitUrl → Text) where
  -- The user information holds a colon, with a password behind it. The user is read no more.
  abbrev pub redacted_password : Bool → Text → SplitUrl → Text → Text → Text
  redacted_password is_vcs url parsed password host =
      if is_variable password
      then if is_vcs then urlunsplit parsed else url
      else urlunsplit (record parsed { netloc = if is_vcs then host else parsed.netloc })

  abbrev pub redacted_auth : Bool → Text → SplitUrl → Text → Text → Text
  redacted_auth is_vcs url parsed auth host =
      if not (is_variable auth)
      then elim (partition b':' auth) [
        | some (user, password) ↦ redacted_password is_vcs url parsed password host
        | none ↦
            if not (is_variable auth) then urlunsplit (record parsed { netloc = host }) else url
      ]
      else url

  abbrev pub redacted_parts : Bool → Text → SplitUrl → Text
  redacted_parts is_vcs url parsed =
      if not (parsed.scheme =? codes "ssh")
      then elim (rpartition b'@' parsed.netloc) [
        | none ↦ url
        | some (auth, host) ↦ redacted_auth is_vcs url parsed auth host
      ]
      else url

  unfoldable pub redacted_url : DirectUrl → Result DirectUrlError Text
  redacted_url d =
      and_then (urlsplit d.url) (λ parsed. ok (redacted_parts (is_some d.vcs_info) d.url parsed))

  unfoldable pub to_dict : DirectUrl → Result DirectUrlError JsonDict
  unfolding validate redacted_url dict_of
  to_dict d = and_then (validate d) (λ _. and_then (redacted_url d) (λ url. ok (dict_of url d)))

  unfoldable pub to_dict_compat : DirectUrl → Result DirectUrlError JsonDict
  unfolding to_dict
  to_dict_compat d =
      and_then (to_dict d) (λ l. ok (with_legacy_info l (get (codes "archive_info") l)))

  -- `json.dumps` with sorted keys is given.
  unfoldable pub to_json : (JsonDict → Text) → DirectUrl → Result DirectUrlError Text
  unfolding to_dict_compat
  to_json dumps d = and_then (to_dict_compat d) (λ l. ok (dumps l))

-- `sorted(self.archive_info.hashes.items())`
abbrev pub insert_item : Text × Text → Table Text Text → Table Text Text
insert_item x [] = x ∷ []
insert_item x (y ∷ l) =
    let rest = insert_item x l in
    elim (pair_cmp text_ord text_ord x y) [ gt ↦ y ∷ rest | _ ↦ x ∷ y ∷ l ]

abbrev pub sorted_items : Table Text Text → Table Text Text
sorted_items [] = []
sorted_items (x ∷ l) = insert_item x (sorted_items l)

abbrev pub hash_items : Option ArchiveInfo → Table Text Text
hash_items none = []
hash_items (some a) = elim a.hashes [ none ↦ [] | some l ↦ l ]

abbrev pub subdirectory_fragment : Option Text → List Text
subdirectory_fragment none = []
subdirectory_fragment (some t) = if is_nil t then [] else (codes "subdirectory=" ++ t) ∷ []

abbrev pub fragments_of : DirectUrl → List Text
fragments_of d =
    map (λ x. x.0 ++ (b'=' ∷ x.1)) (sorted_items (hash_items d.archive_info))
    ++ subdirectory_fragment d.info_subdir

abbrev pub reference_url : DirectUrl → Text
reference_url d = elim d.vcs_info [
  | none ↦ d.url
  | some info ↦ info.vcs ++ (b'+' ∷ (d.url ++ (b'@' ∷ info.commit_id)))
]

unfoldable pub as_pep440_direct_reference : DirectUrl → Text → Text
unfolding join
as_pep440_direct_reference d name =
    let fragments = fragments_of d in
    let suffix =
      if is_nil fragments
      then reference_url d
      else reference_url d ++ (b'#' ∷ join b'&' fragments) in
    name ++ (codes " @ " ++ suffix)

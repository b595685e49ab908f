-- ===== src/DirectUrl/Legacy.antt =====
-- What is left of the hashes of an archive in the dictionary that is dumped.
use mathlib.Core.Option.{map}
use core_pip.Prelude.{
  partition, ℕ, ◌≡◌, ◌∙◌, refl, Bool, true, false, not, Option, none, some, [], ◌∷◌, ◌++◌, Text,
  text_ord, ◌=?◌, =?_iff, codes, is_nil, is_some, has_char, Result, ok, and_then, arith, subst,
  Bool-cases, inl, inr,
}
use core_pip.Caches.{Table}
use core_pip.DirectUrl.Json.{
  Json, null, boolean, number, string, array, object, JsonDict, no_entries, entry, get, set,
}
use core_pip.DirectUrl.Defs.{
  DirectUrlError, ArchiveInfo, DirectUrl, validate, validated, read_hash, archive_info_from_dict,
  read_info, from_dict,
}
use core_pip.DirectUrl.Write.{
  archive_info_to_dict, dict_of, SplitUrl, redacted_url, with_legacy_hash, with_legacy_info,
  to_dict_compat,
}
use core_pip.DirectUrl.Accepted.{is_read_archive, IsRead, from_dict-IsRead}
use core_pip.DirectUrl.RoundTrip

-- The first hash of a table alone, in both fields
abbrev pub with_first_hash : ArchiveInfo → ArchiveInfo
with_first_hash a = elim a.hashes [
  | none ↦ a
  | some [] ↦ a
  | some ((algorithm, digest) ∷ l) ↦ record {
    hash = some (algorithm ++ (b'=' ∷ digest));
    hashes = some ((algorithm, digest) ∷ []);
  }
]

-- The name of the first algorithm, where there is one, has no "=".
abbrev pub is_plain_table : Option (Table Text Text) → Bool
is_plain_table (some ((algorithm, digest) ∷ l)) = not (has_char b'=' algorithm)
is_plain_table _ = true

abbrev pub is_plain_first : Option ArchiveInfo → Bool
is_plain_first none = true
is_plain_first (some a) = is_plain_table a.hashes

pub partition-append :
    (sep : ℕ) (u v : Text) → has_char sep u ≡ false → partition sep (u ++ (sep ∷ v)) ≡ some (u, v)
partition-append sep [] v h = ground arith
partition-append sep (c ∷ u) v h = ground (arith, partition-append sep u v)

get-set_same : (key : Text) (v : Json) (d : JsonDict) → get key (set key v d) ≡ some v
get-set_same key v no_entries = ground (arith, =?_iff key key)
get-set_same key v (entry k w d) = ground (arith, =?_iff key key, get-set_same key v d)

get-set_other :
    (key k : Text) (v : Json) (d : JsonDict) → (key =? k) ≡ false → get key (set k v d) ≡ get key d
get-set_other key k v no_entries h = rw h refl
get-set_other key k v (entry j w d) h = elim (Bool-cases (k =? j)) [
  | inl e ↦ rw (e, subst (λ x. (key =? x) ≡ false) ((=?_iff k j).0 e) h) refl
  | inr e ↦ rw (e, get-set_other key k v d h) refl
]

module _ (str : Json → Text) where
  archive_info_first :
      (h : Option Text) (l : Option (Table Text Text))
      → is_read_archive (some (record { hash = h; hashes = l })) ≡ true
      → is_plain_table l ≡ true
      → archive_info_from_dict str
          (with_legacy_hash (archive_info_to_dict (record { hash = h; hashes = l })))
        ≡ ok (with_first_hash (record { hash = h; hashes = l }))
  unfolding archive_info_from_dict archive_info_to_dict
  archive_info_first none none r p = RoundTrip.archive_info_back str none none r
  archive_info_first (some t) none r p = RoundTrip.archive_info_back str (some t) none r
  archive_info_first none (some []) r p = RoundTrip.archive_info_back str none (some []) r
  archive_info_first (some t) (some []) r p = RoundTrip.archive_info_back str (some t) (some []) r
  archive_info_first none (some ((k, v) ∷ l)) r p =
      rw (read_hash, partition-append b'=' k v (ground (arith, p))) refl
  archive_info_first (some t) (some ((k, v) ∷ l)) r p =
      rw (read_hash, partition-append b'=' k v (ground (arith, p))) refl

  archive_part_first :
      (o : Option ArchiveInfo)
      → is_read_archive o ≡ true
      → is_plain_first o ≡ true
      → read_info
          (codes "archive_info")
          (archive_info_from_dict str)
          (map (λ a. object (with_legacy_hash (archive_info_to_dict a))) o)
        ≡ ok (map with_first_hash o)
  archive_part_first none r p = refl
  archive_part_first (some a) r p = rw (archive_info_first a.hash a.hashes r p) refl

-- The other entries stay, and that of the archive is replaced.
get-legacy_other :
    (key : Text) (d : JsonDict) (o : Option Json)
    → (key =? codes "archive_info") ≡ false
    → get key (with_legacy_info d o) ≡ get key d
get-legacy_other key d none h = refl
get-legacy_other key d (some null) h = refl
get-legacy_other key d (some (boolean b)) h = refl
get-legacy_other key d (some (number u)) h = refl
get-legacy_other key d (some (string u)) h = refl
get-legacy_other key d (some (array l)) h = refl
get-legacy_other key d (some (object info)) h =
    get-set_other key (codes "archive_info") (object (with_legacy_hash info)) d h

get-legacy_archive :
    (d : JsonDict) (o : Option ArchiveInfo)
    → get (codes "archive_info") d ≡ map (λ a. object (archive_info_to_dict a)) o
    → get (codes "archive_info") (with_legacy_info d (get (codes "archive_info") d))
      ≡ map (λ a. object (with_legacy_hash (archive_info_to_dict a))) o
get-legacy_archive d none h = rw (h, h) refl
get-legacy_archive d (some a) h =
    rw h
      (get-set_same (codes "archive_info") (object (with_legacy_hash (archive_info_to_dict a))) d)

is_some-map : {A B : Type 0} (f : A → B) (o : Option A) → is_some (map f o) ≡ is_some o
is_some-map f none = refl
is_some-map f (some a) = refl

validated-first :
    (url : Text) (d : DirectUrl)
    → IsRead d
    → validated (record d { url = url; archive_info = map with_first_hash d.archive_info })
      ≡ ok (record d { url = url; archive_info = map with_first_hash d.archive_info })
unfolding validated validate
validated-first url d r = rw (is_some-map with_first_hash d.archive_info, r.one) refl

module _ (str : Json → Text) (url : Text) (d : DirectUrl) where
  with_legacy : JsonDict
  with_legacy = with_legacy_info (dict_of url d) (get (codes "archive_info") (dict_of url d))

  from_dict-legacy :
      IsRead d
      → is_plain_first d.archive_info ≡ true
      → is_nil url ≡ false
      → from_dict str with_legacy
        ≡ ok (record d { url = url; archive_info = map with_first_hash d.archive_info })
  unfolding with_legacy
  from_dict-legacy r p u =
      let d' = record d { url = url; archive_info = map with_first_hash d.archive_info } in
      RoundTrip.from_dict-parts str with_legacy d' r.subdir
        (rw (kept (codes "url") refl) (RoundTrip.get-url str url d u))
        (rw (get-legacy_archive (dict_of url d) d.archive_info (RoundTrip.get-archive str url d))
          (archive_part_first str d.archive_info r.archive p))
        (rw (kept (codes "dir_info") refl, RoundTrip.get-dir str url d)
          (RoundTrip.dir_part str d.dir_info))
        (rw (kept (codes "vcs_info") refl, RoundTrip.get-vcs str url d)
          (RoundTrip.vcs_part str d.vcs_info r.revision))
      ∙ validated-first url d r
    where
      kept :
          (key : Text)
          → (key =? codes "archive_info") ≡ false
          → get key with_legacy ≡ get key (dict_of url d)
      kept key h =
          get-legacy_other key (dict_of url d) (get (codes "archive_info") (dict_of url d)) h

module _ (urlsplit : Text → Result DirectUrlError SplitUrl) (urlunsplit : SplitUrl → Text) where
  -- Every record that was read from a dictionary, and whose redacted URL is not empty, is written
  -- by `to_dict_compat` to a dictionary that is read back to the same record but for two things:
  -- the URL is the redacted one, and of several hashes only the first is left, in both fields. (The
  -- name of the first algorithm has no "=".)
  pub from_dict-to_dict_compat :
      (str : Json → Text) (raw : JsonDict) (d : DirectUrl) (url : Text)
      → from_dict str raw ≡ ok d
      → redacted_url urlsplit urlunsplit d ≡ ok url
      → is_nil url ≡ false
      → is_plain_first d.archive_info ≡ true
      → and_then (to_dict_compat urlsplit urlunsplit d) (from_dict str)
        ≡ ok (record d { url = url; archive_info = map with_first_hash d.archive_info })
  unfolding to_dict_compat with_legacy
  from_dict-to_dict_compat str raw d url h redacted u p =
      let r = from_dict-IsRead str raw d h in
      rw (RoundTrip.to_dict-IsRead urlsplit urlunsplit d url r redacted)
        (from_dict-legacy str url d r p u)

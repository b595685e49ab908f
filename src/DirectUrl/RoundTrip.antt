-- ===== src/DirectUrl/RoundTrip.antt =====
-- What is written is read back.
use core_pip.Prelude.{
  partition, ◌≡◌, ◌∙◌, refl, ap, Bool, true, false, not, ◌&&◌, Option, none, some, [], ◌∷◌, Text,
  text_ord, ◌=?◌, =?_iff, codes, is_nil, Result, ok, Option-cases, inl, inr, and_then, arith,
}
use mathlib.Core.Option.{map}
use core_pip.Caches.{Table}
use core_pip.DirectUrl.Json.{Json, object, JsonDict, no_entries, get}
use core_pip.DirectUrl.Defs.{
  DirectUrlError, ArchiveInfo, DirInfo, VcsInfo, DirectUrl, validate, expect_string, read_hash,
  texts_of, archive_info_from_dict, dir_info_from_dict, vcs_info_from_dict, read_info, validated,
  from_dict,
}
use core_pip.DirectUrl.Write.{
  put_some, dict_of_texts, archive_info_to_dict, dir_info_to_dict, vcs_info_to_dict, dict_of,
  SplitUrl, redacted_url, to_dict,
}
use core_pip.DirectUrl.Accepted.{
  is_read_hash, is_read_archive, is_read_vcs, IsRead, from_dict-IsRead,
}

texts_of-dict_of_texts :
    (str : Json → Text) (l : Table Text Text) → texts_of str (dict_of_texts l) ≡ l
texts_of-dict_of_texts str [] = refl
texts_of-dict_of_texts str ((k, v) ∷ l) = ap (λ m. (k, v) ∷ m) (texts_of-dict_of_texts str l)

pub archive_info_back :
    (str : Json → Text) (h : Option Text) (l : Option (Table Text Text))
    → is_read_hash h l ≡ true
    → archive_info_from_dict str (archive_info_to_dict (record { hash = h; hashes = l }))
      ≡ ok (record { hash = h; hashes = l })
unfolding archive_info_from_dict archive_info_to_dict
archive_info_back str none none r = refl
archive_info_back str none (some l) r = rw (texts_of-dict_of_texts str l) refl
archive_info_back str (some t) none r = absurd (ground (arith, r))
archive_info_back str (some t) (some l) r = elim (Option-cases (partition b'=' t)) [
  | inl e ↦ absurd (ground (arith, r, e))
  | inr (p, e) ↦ rw (read_hash, e, texts_of-dict_of_texts str l) refl
]

dir_info_back :
    (b : Bool)
    → dir_info_from_dict (dir_info_to_dict (record { editable = b })) ≡ ok (record { editable = b })
unfolding dir_info_from_dict dir_info_to_dict
dir_info_back true = refl
dir_info_back false = refl

vcs_info_back :
    (vcs id : Text) (revision : Option Text)
    → (not (is_nil vcs) && not (is_nil id)) ≡ true
    → vcs_info_from_dict
        (vcs_info_to_dict (record { vcs = vcs; commit_id = id; requested_revision = revision }))
      ≡ ok (record { vcs = vcs; commit_id = id; requested_revision = revision })
unfolding vcs_info_from_dict vcs_info_to_dict
vcs_info_back [] id revision h = cc
vcs_info_back (c ∷ vcs) [] revision h = cc
vcs_info_back (c ∷ vcs) (e ∷ id) none h = refl
vcs_info_back (c ∷ vcs) (e ∷ id) (some t) h = refl

validated-same :
    (url : Text) (d : DirectUrl)
    → IsRead d
    → validated (record d { url = url }) ≡ ok (record d { url = url })
unfolding validated validate
validated-same url d r = rw r.one refl

-- Dictionaries
get-put_same :
    {A : Type 0} (key : Text) (write : A → Json) (o : Option A) (rest : JsonDict)
    → get key rest ≡ none
    → get key (put_some key write o rest) ≡ map write o
get-put_same key write none rest h = h
get-put_same key write (some a) rest h = ground (arith, =?_iff key key)

get-put_other :
    {A : Type 0} (key k : Text) (write : A → Json) (o : Option A) (rest : JsonDict)
    → (key =? k) ≡ false
    → get key (put_some k write o rest) ≡ get key rest
get-put_other key k write none rest h = refl
get-put_other key k write (some a) rest h = rw h refl

pub and_then-step :
    {E A B : Type 0} (r : Result E A) (a : A) (f : A → Result E B) → r ≡ ok a → and_then r f ≡ f a
and_then-step r a f h = rw h refl

module _ (str : Json → Text) where
  -- What is read depends on four values.
  pub from_dict-parts :
      (raw : JsonDict) (d : DirectUrl)
      → d.info_subdir ≡ none
      → expect_string (codes "url") (get (codes "url") raw) ≡ ok d.url
      → read_info
          (codes "archive_info")
          (archive_info_from_dict str)
          (get (codes "archive_info") raw)
        ≡ ok d.archive_info
      → read_info (codes "dir_info") dir_info_from_dict (get (codes "dir_info") raw) ≡ ok d.dir_info
      → read_info (codes "vcs_info") vcs_info_from_dict (get (codes "vcs_info") raw) ≡ ok d.vcs_info
      → from_dict str raw ≡ validated d
  unfolding from_dict
  from_dict-parts raw d s h1 h2 h3 h4 = rw (h1, h2, h3, h4, s) refl

  archive_part :
      (o : Option ArchiveInfo)
      → is_read_archive o ≡ true
      → read_info
          (codes "archive_info")
          (archive_info_from_dict str)
          (map (λ a. object (archive_info_to_dict a)) o)
        ≡ ok o
  archive_part none r = refl
  archive_part (some a) r = rw (archive_info_back str a.hash a.hashes r) refl

  pub dir_part :
      (o : Option DirInfo)
      → read_info (codes "dir_info") dir_info_from_dict (map (λ a. object (dir_info_to_dict a)) o)
        ≡ ok o
  dir_part none = refl
  dir_part (some a) = rw (dir_info_back a.editable) refl

  pub vcs_part :
      (o : Option VcsInfo)
      → is_read_vcs o ≡ true
      → read_info (codes "vcs_info") vcs_info_from_dict (map (λ a. object (vcs_info_to_dict a)) o)
        ≡ ok o
  vcs_part none r = refl
  vcs_part (some a) r = rw (vcs_info_back a.vcs a.commit_id a.requested_revision r) refl

  module _ (url : Text) (d : DirectUrl) where
    pub get-archive :
        get (codes "archive_info") (dict_of url d)
        ≡ map (λ a. object (archive_info_to_dict a)) d.archive_info
    unfolding dict_of
    get-archive = get-put_same (codes "archive_info") _ d.archive_info _ (
        get-put_other (codes "archive_info") (codes "dir_info") _ d.dir_info _ refl
        ∙ get-put_other (codes "archive_info") (codes "vcs_info") _ d.vcs_info no_entries refl)

    pub get-dir :
        get (codes "dir_info") (dict_of url d) ≡ map (λ a. object (dir_info_to_dict a)) d.dir_info
    unfolding dict_of
    get-dir =
        get-put_other (codes "dir_info") (codes "archive_info") _ d.archive_info _ refl
        ∙ get-put_same (codes "dir_info") _ d.dir_info _
            (get-put_other (codes "dir_info") (codes "vcs_info") _ d.vcs_info no_entries refl)

    pub get-vcs :
        get (codes "vcs_info") (dict_of url d) ≡ map (λ a. object (vcs_info_to_dict a)) d.vcs_info
    unfolding dict_of
    get-vcs =
        get-put_other (codes "vcs_info") (codes "archive_info") _ d.archive_info _ refl
        ∙ get-put_other (codes "vcs_info") (codes "dir_info") _ d.dir_info _ refl
        ∙ get-put_same (codes "vcs_info") _ d.vcs_info no_entries refl

    pub get-url :
        is_nil url ≡ false
        → expect_string (codes "url") (get (codes "url") (dict_of url d)) ≡ ok url
    unfolding dict_of
    get-url h = rw h refl

    from_dict-dict_of :
        IsRead d → is_nil url ≡ false → from_dict str (dict_of url d) ≡ ok (record d { url = url })
    from_dict-dict_of r u =
        from_dict-parts (dict_of url d) (record d { url = url }) r.subdir (get-url u)
          (rw get-archive (archive_part d.archive_info r.archive))
          (rw get-dir (dir_part d.dir_info)) (rw get-vcs (vcs_part d.vcs_info r.revision))
        ∙ validated-same url d r

module _ (urlsplit : Text → Result DirectUrlError SplitUrl) (urlunsplit : SplitUrl → Text) where
  pub to_dict-IsRead :
      (d : DirectUrl) (url : Text)
      → IsRead d
      → redacted_url urlsplit urlunsplit d ≡ ok url
      → to_dict urlsplit urlunsplit d ≡ ok (dict_of url d)
  unfolding to_dict
  to_dict-IsRead d url r h = rw (r.one, h) refl

  -- Every record that was read from a dictionary, and whose redacted URL is not empty, is written
  -- to a dictionary, and that is read back to the same record with the redacted URL.
  pub from_dict-to_dict :
      (str : Json → Text) (raw : JsonDict) (d : DirectUrl) (url : Text)
      → from_dict str raw ≡ ok d
      → redacted_url urlsplit urlunsplit d ≡ ok url
      → is_nil url ≡ false
      → and_then (to_dict urlsplit urlunsplit d) (from_dict str) ≡ ok (record d { url = url })
  from_dict-to_dict str raw d url h redacted u =
      let r = from_dict-IsRead str raw d h in
      and_then-step (to_dict urlsplit urlunsplit d) (dict_of url d) (from_dict str)
        (to_dict-IsRead d url r redacted)
      ∙ from_dict-dict_of str url d r u

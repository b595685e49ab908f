-- ===== src/DirectUrl/Accepted.antt =====
-- What holds of a record that was read, and why its parts are read back.
use core_pip.Prelude.{
  partition, ◌≡◌, refl, sym, subst, Bool, true, not, ◌&&◌, Option, none, some, [], ◌∷◌, Text, codes,
  is_nil, is_some, Result, ok, ok_inj, ok_ne_err, Option-cases, inl, inr, and_then-ok, arith,
}
use core_pip.Caches.{Table}
use core_pip.DirectUrl.Json.{
  Json, null, boolean, number, string, array, object, JsonDict, get, given,
}
use core_pip.DirectUrl.Defs.{
  DirectUrlError, ArchiveInfo, VcsInfo, DirectUrl, validate, expect_string, read_hash, read_hashes,
  archive_info_from_dict, dir_info_from_dict, read_revision, vcs_info_from_dict, read_info,
  validated, from_dict,
}

-- Where there is a hash, it has a "=", and there is a table of hashes.
abbrev pub is_read_hash : Option Text → Option (Table Text Text) → Bool
is_read_hash none hashes = true
is_read_hash (some t) hashes = is_some (partition b'=' t) && is_some hashes

abbrev pub is_read_archive : Option ArchiveInfo → Bool
is_read_archive none = true
is_read_archive (some a) = is_read_hash a.hash a.hashes

abbrev pub is_read_vcs : Option VcsInfo → Bool
is_read_vcs none = true
is_read_vcs (some info) = not (is_nil info.vcs) && not (is_nil info.commit_id)

expect_string-ok :
    (label : Text) (o : Option Json) (t : Text)
    → expect_string label o ≡ ok t
    → not (is_nil t) ≡ true
expect_string-ok label none t h = cc
expect_string-ok label (some null) t h = cc
expect_string-ok label (some (boolean b)) t h = cc
expect_string-ok label (some (number u)) t h = cc
expect_string-ok label (some (array l)) t h = cc
expect_string-ok label (some (object d)) t h = cc
expect_string-ok label (some (string [])) t h = cc
expect_string-ok label (some (string (c ∷ u))) t h =
    subst (λ v. not (is_nil v) ≡ true) (ok_inj h) refl

-- The text that was read has a "=", and its table is given to the next test.
read_hash-ok :
    (o : Option Json) (r : Option Text × Option (Table Text Text))
    → read_hash o ≡ ok r
    → is_read_hash r.0 r.1 ≡ true
read_hash-ok none r h = subst (λ r. is_read_hash r.0 r.1 ≡ true) (ok_inj h) refl
read_hash-ok (some null) r h = cc
read_hash-ok (some (boolean b)) r h = cc
read_hash-ok (some (number u)) r h = cc
read_hash-ok (some (array l)) r h = cc
read_hash-ok (some (object d)) r h = cc
read_hash-ok (some (string t)) r h = elim (Option-cases (partition b'=' t)) [
  | inl e ↦ absurd (ok_ne_err (sym (rw (e, read_hash) at h)))
  | inr (p, e) ↦
      subst (λ r. is_read_hash r.0 r.1 ≡ true) (ok_inj (rw (e, read_hash) at h)) (rw e refl)
]

-- The second test keeps a table where there is one.
read_hashes-ok :
    (str : Json → Text) (t : Option Text) (before after : Option (Table Text Text))
    (o : Option Json)
    → is_read_hash t before ≡ true
    → read_hashes str before o ≡ ok after
    → is_read_hash t after ≡ true
read_hashes-ok str t before after none r h = subst (λ l. is_read_hash t l ≡ true) (ok_inj h) r
read_hashes-ok str none before after (some o) r h = refl
read_hashes-ok str (some t) before after (some (object d)) r h =
    subst (λ l. is_read_hash (some t) l ≡ true) (ok_inj h) (ground (arith, r))
read_hashes-ok str (some t) before after (some null) r h = cc
read_hashes-ok str (some t) before after (some (boolean b)) r h = cc
read_hashes-ok str (some t) before after (some (number u)) r h = cc
read_hashes-ok str (some t) before after (some (string u)) r h = cc
read_hashes-ok str (some t) before after (some (array l)) r h = cc

archive_info-ok :
    (str : Json → Text) (raw : JsonDict) (a : ArchiveInfo)
    → archive_info_from_dict str raw ≡ ok a
    → is_read_archive (some a) ≡ true
unfolding archive_info_from_dict
archive_info-ok str raw a h =
    let (r, first, rest) = and_then-ok (read_hash (given (get (codes "hash") raw))) _ a h in
    let (l, second, last) =
      and_then-ok (read_hashes str r.1 (given (get (codes "hashes") raw))) _ a rest in
    subst (λ a. is_read_archive (some a) ≡ true) (ok_inj last)
      (read_hashes-ok str r.0 r.1 l (given (get (codes "hashes") raw))
        (read_hash-ok (given (get (codes "hash") raw)) r first) second)

vcs_info-ok :
    (raw : JsonDict) (info : VcsInfo)
    → vcs_info_from_dict raw ≡ ok info
    → is_read_vcs (some info) ≡ true
unfolding vcs_info_from_dict
vcs_info-ok raw info h =
    let (vcs, first, rest) =
      and_then-ok (expect_string (codes "vcs_info.vcs") (get (codes "vcs") raw)) _ info h in
    let (id, second, rest') =
      and_then-ok (expect_string (codes "vcs_info.commit_id") (get (codes "commit_id") raw)) _ info
        rest in
    let (revision, third, last) =
      and_then-ok (read_revision (given (get (codes "requested_revision") raw))) _ info rest' in
    subst (λ i. is_read_vcs (some i) ≡ true) (ok_inj last)
      (ground (
        arith,
        expect_string-ok (codes "vcs_info.vcs") (get (codes "vcs") raw) vcs first,
        expect_string-ok (codes "vcs_info.commit_id") (get (codes "commit_id") raw) id second,
      ))

-- What holds of each record that is read holds of the part.
read_info-ok :
    {A : Type 0} (P : Option A → Type 0) (label : Text) (read : JsonDict → Result DirectUrlError A)
    (o : Option Json) (r : Option A)
    → P none
    → ((d : JsonDict) (a : A) → read d ≡ ok a → P (some a))
    → read_info label read o ≡ ok r
    → P r
read_info-ok P label read none r p holds h = subst P (ok_inj h) p
read_info-ok P label read (some (object d)) r p holds h =
    let (a, first, last) = and_then-ok (read d) _ r h in subst P (ok_inj last) (holds d a first)
read_info-ok P label read (some null) r p holds h = cc
read_info-ok P label read (some (boolean b)) r p holds h = cc
read_info-ok P label read (some (number u)) r p holds h = cc
read_info-ok P label read (some (string u)) r p holds h = cc
read_info-ok P label read (some (array l)) r p holds h = cc

-- A record that `from_dict` returned
pub record IsRead (d : DirectUrl) : Type 0 where
  pub subdir : d.info_subdir ≡ none
  pub archive : is_read_archive d.archive_info ≡ true
  pub revision : is_read_vcs d.vcs_info ≡ true
  pub one : validate d ≡ ok tt

validated-ok : (d d' : DirectUrl) → validated d ≡ ok d' → (validate d ≡ ok tt) × (d ≡ d')
unfolding validated
validated-ok d d' h = let (u, first, last) = and_then-ok (validate d) _ d' h in (first, ok_inj last)

pub from_dict-IsRead :
    (str : Json → Text) (raw : JsonDict) (d : DirectUrl) → from_dict str raw ≡ ok d → IsRead d
unfolding from_dict
from_dict-IsRead str raw d h =
    let (url, h1, rest1) =
      and_then-ok (expect_string (codes "url") (get (codes "url") raw)) _ d h in
    let (a, h2, rest2) =
      and_then-ok
        (read_info (codes "archive_info") (archive_info_from_dict str)
          (get (codes "archive_info") raw))
        _ d rest1 in
    let (i, h3, rest3) =
      and_then-ok (read_info (codes "dir_info") dir_info_from_dict (get (codes "dir_info") raw)) _ d
        rest2 in
    let (v, h4, rest4) =
      and_then-ok (read_info (codes "vcs_info") vcs_info_from_dict (get (codes "vcs_info") raw)) _ d
        rest3 in
    let (one, same) = validated-ok _ d rest4 in
    subst IsRead same (record {
      subdir = refl;
      archive =
          read_info-ok (λ o. is_read_archive o ≡ true) (codes "archive_info")
            (archive_info_from_dict str) (get (codes "archive_info") raw) a refl
            (archive_info-ok str) h2;
      revision =
          read_info-ok (λ o. is_read_vcs o ≡ true) (codes "vcs_info") vcs_info_from_dict
            (get (codes "vcs_info") raw) v refl vcs_info-ok h4;
      one = one;
    })

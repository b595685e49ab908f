-- ===== src/Tests/Hashes.antt =====
-- Allowed digests.
use core_pip.Prelude.{
  ◌≡◌, refl, true, ◌&&◌, Option, none, some, List, [], ◌∷◌, ◌++◌, Text, codes, text_ord, ◌=?◌,
  if◌then◌else◌,
}
use core_pip.Caches.{Table, lookup}
use core_pip.Controls.{has}
use core_pip.Hashes.{
  hashes_of, intersection, is_hash_allowed, intersection_lem, check_against_chunks, is_ok,
  all_known, some_agrees, check_against_chunks_lem,
}

abbrev ours : Table Text (List Text)
ours = (codes "sha256", codes "AB" ∷ codes "cd" ∷ []) ∷ []

abbrev theirs : Table Text (List Text)
theirs = (codes "sha256", codes "ab" ∷ []) ∷ (codes "md5", codes "ef" ∷ []) ∷ []

intersection_lem_example :
    is_hash_allowed (intersection (hashes_of ours) (hashes_of theirs)) (codes "sha256") (codes "aB")
    ≡ (is_hash_allowed (hashes_of ours) (codes "sha256") (codes "aB")
        && is_hash_allowed (hashes_of theirs) (codes "sha256") (codes "aB"))
intersection_lem_example = intersection_lem ours theirs (codes "sha256") (codes "aB") refl refl

common_allowed :
    is_hash_allowed (intersection (hashes_of ours) (hashes_of theirs)) (codes "sha256") (codes "aB")
    ≡ true
unfolding is_hash_allowed intersection hashes_of has lookup
common_allowed = refl

-- An algorithm whose digest is the text itself.
abbrev new : Text → Option Text
new name = if name =? codes "sha256" then some [] else none

abbrev update : Text → Text → Text
update d chunk = d ++ chunk

abbrev hexdigest : Text → Text
hexdigest d = d

check_against_chunks_lem_example :
    is_ok (check_against_chunks new update hexdigest (hashes_of ours) (codes "a" ∷ codes "b" ∷ []))
    ≡ (all_known new update hexdigest (hashes_of ours).allowed_internal
        && some_agrees new update hexdigest
            (hashes_of ours)
            (codes "a" ∷ codes "b" ∷ [])
            (hashes_of ours).allowed_internal)
check_against_chunks_lem_example =
    check_against_chunks_lem new update hexdigest (hashes_of ours) (codes "a" ∷ codes "b" ∷ [])

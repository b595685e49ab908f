-- ===== src/Hashes/Check.antt =====
-- Feeding the chunks to all digests at once gives each algorithm the digest of all chunks.
use core_pip.Prelude.{
  ◌≡◌, ◌∙◌, ap, refl, Bool, true, false, ◌&&◌, ◌||◌, Option, none, some, List, [], ◌∷◌, every,
  some_of, is_some, Text, text_ord, Result, ok, err, arith,
}
use core_pip.Caches.{Table}
use core_pip.Controls.{has}
use core_pip.Hashes.Defs.{
  put_digest, verdict, Hashes, digests_for, HashError, start, update_all, feed, one_matches,
  check_against_chunks,
}

abbrev pub is_ok : {E A : Type 0} → Result E A → Bool
is_ok (ok a) = true
is_ok (err e) = false

module _ {D Chunk : Type 0} (new : Text → Option D) (update : D → Chunk → D)
    (hexdigest : D → Text) where
  -- One digest of all chunks
  abbrev pub digested : D → List Chunk → D
  digested d [] = d
  digested d (chunk ∷ chunks) = digested (update d chunk) chunks

  -- `hashlib` knows every algorithm of the table.
  abbrev pub all_known : Table Text (List Text) → Bool
  all_known t = every (λ (name, digests). is_some (new name)) t

  -- The digest of the chunks by this algorithm is one of the allowed ones.
  abbrev pub agrees : Hashes → List Chunk → Text → Option D → Bool
  agrees h chunks name none = false
  agrees h chunks name (some d) = has (hexdigest (digested d chunks)) (digests_for h name)

  abbrev pub some_agrees : Hashes → List Chunk → Table Text (List Text) → Bool
  some_agrees h chunks t = some_of (λ (name, digests). agrees h chunks name (new name)) t

  feed-nil : (chunks : List Chunk) → feed new update hexdigest chunks [] ≡ []
  feed-nil [] = refl
  feed-nil (chunk ∷ chunks) = feed-nil chunks

  feed-cons :
      (chunks : List Chunk) (name : Text) (d : D) (gots : Table Text D)
      → feed new update hexdigest chunks ((name, d) ∷ gots)
        ≡ (name, digested d chunks) ∷ feed new update hexdigest chunks gots
  feed-cons [] name d gots = refl
  feed-cons (chunk ∷ chunks) name d gots =
      feed-cons chunks name (update d chunk) (update_all new update hexdigest chunk gots)

  abbrev passes : Hashes → List Chunk → Result HashError (Table Text D) → Bool
  passes h chunks (err e) = false
  passes h chunks (ok gots) =
      one_matches new update hexdigest h (feed new update hexdigest chunks gots)

  put_digest_lem :
      (h : Hashes) (chunks : List Chunk) (name : Text) (o : Option D)
      (r : Result HashError (Table Text D)) (k m : Bool)
      → is_ok r ≡ k
      → passes h chunks r ≡ (k && m)
      → (is_ok (put_digest new update hexdigest name o r) ≡ (is_some o && k))
        × (passes h chunks (put_digest new update hexdigest name o r)
            ≡ ((is_some o && k) && (agrees h chunks name o || m)))
  put_digest_lem h chunks name none r k m known passed = (refl, refl)
  put_digest_lem h chunks name (some d) (err e) k m known passed =
      (known, ground (arith, known, passed))
  put_digest_lem h chunks name (some d) (ok gots) k m known passed =
      (known, rw (feed-cons chunks name d gots) (ground (arith, known, passed)))

  start_lem :
      (h : Hashes) (chunks : List Chunk) (t : Table Text (List Text))
      → (is_ok (start new update hexdigest t) ≡ all_known t)
        × (passes h chunks (start new update hexdigest t) ≡ (all_known t && some_agrees h chunks t))
  start_lem h chunks [] = (refl, ap (one_matches new update hexdigest h) (feed-nil chunks))
  start_lem h chunks ((name, digests) ∷ t) =
      let (known, passed) = start_lem h chunks t in
      put_digest_lem h chunks name (new name) (start new update hexdigest t) (all_known t)
        (some_agrees h chunks t) known passed

  verdict-passes :
      (h : Hashes) (chunks : List Chunk) (r : Result HashError (Table Text D))
      → is_ok (verdict new update hexdigest h chunks r) ≡ passes h chunks r
  verdict-passes h chunks (err e) = refl
  verdict-passes h chunks (ok gots) = ground arith

  -- A check passes exactly if `hashlib` knows every algorithm that is named, and the digest of all
  -- chunks by one of them is among the allowed digests of that algorithm.
  pub check_against_chunks_lem :
      (h : Hashes) (chunks : List Chunk)
      → is_ok (check_against_chunks new update hexdigest h chunks)
        ≡ (all_known h.allowed_internal && some_agrees h chunks h.allowed_internal)
  unfolding check_against_chunks
  check_against_chunks_lem h chunks =
      verdict-passes h chunks (start new update hexdigest h.allowed_internal)
      ∙ (start_lem h chunks h.allowed_internal).1

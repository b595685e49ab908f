-- ===== src/Hashes/Defs.antt =====
-- The digests that are allowed, and checking chunks of bytes against them. The digests themselves
-- are the work of Python's `hashlib` and a parameter.
use core_pip.Prelude.{
  Bool, true, false, Option, none, some, List, [], ◌∷◌, map, keep, lower, is_nil, Text, text_ord,
  ◌<=?◌, Result, ok, err, if◌then◌else◌,
}
use core_pip.Caches.{Table, lookup}
use core_pip.Controls.{has}

pub record Hashes : Type 0 where
  pub allowed_internal : Table Text (List Text)

-- `sorted(digests)`
abbrev pub insert_sorted : Text → List Text → List Text
insert_sorted t [] = t ∷ []
insert_sorted t (u ∷ l) = let rest = insert_sorted t l in if t <=? u then t ∷ u ∷ l else u ∷ rest

abbrev pub sorted : List Text → List Text
sorted [] = []
sorted (t ∷ l) = insert_sorted t (sorted l)

-- `{key: f(key, value) for key, value in table.items()}`
abbrev pub map_entries :
    (Text → List Text → List Text) → Table Text (List Text) → Table Text (List Text)
map_entries f [] = []
map_entries f ((k, v) ∷ t) = (k, f k v) ∷ map_entries f t

abbrev pub in_lower_case : List Text → List Text
in_lower_case digests = map lower (sorted digests)

-- `Hashes(hashes)`
unfoldable pub hashes_of : Table Text (List Text) → Hashes
hashes_of t = record {
  allowed_internal = map_entries (λ algorithm digests. in_lower_case digests) t;
}

-- `self.allowed_internal.get(hash_name, [])`
abbrev pub digests_for : Hashes → Text → List Text
digests_for h name = elim (lookup name h.allowed_internal) [ none ↦ [] | some l ↦ l ]

unfoldable pub is_hash_allowed : Hashes → Text → Text → Bool
is_hash_allowed h name hex = has (lower hex) (digests_for h name)

-- `self & other`
unfoldable pub intersection : Hashes → Hashes → Hashes
intersection self other =
    if is_nil other.allowed_internal
    then self
    else if is_nil self.allowed_internal
    then other
    else hashes_of (
        map_entries (λ algorithm digests. keep (λ d. has d (digests_for self algorithm)) digests)
          other.allowed_internal)

-- `InstallationError` and `HashMismatch`
pub data HashError : Type 0 where
  unknown_hash : Text → HashError
  mismatch : HashError

-- `hashlib.new`, `update` and `hexdigest` on digests of the type `D`
module _ {D Chunk : Type 0} (new : Text → Option D) (update : D → Chunk → D)
    (hexdigest : D → Text) where
  abbrev pub put_digest :
      Text → Option D → Result HashError (Table Text D) → Result HashError (Table Text D)
  put_digest name none rest = err (unknown_hash name)
  put_digest name (some d) (err e) = err e
  put_digest name (some d) (ok gots) = ok ((name, d) ∷ gots)

  -- The loop that makes a digest for each algorithm.
  abbrev pub start : Table Text (List Text) → Result HashError (Table Text D)
  start [] = ok []
  start ((name, digests) ∷ t) = put_digest name (new name) (start t)

  -- `for digest in gots.values(): digest.update(chunk)`
  abbrev pub update_all : Chunk → Table Text D → Table Text D
  update_all chunk [] = []
  update_all chunk ((name, d) ∷ gots) = (name, update d chunk) ∷ update_all chunk gots

  abbrev pub feed : List Chunk → Table Text D → Table Text D
  feed [] gots = gots
  feed (chunk ∷ chunks) gots = feed chunks (update_all chunk gots)

  -- The last loop: whether it returns.
  abbrev pub one_matches : Hashes → Table Text D → Bool
  one_matches h [] = false
  one_matches h ((name, d) ∷ gots) =
      let rest = one_matches h gots in if has (hexdigest d) (digests_for h name) then true else rest

  abbrev pub verdict :
      Hashes → List Chunk → Result HashError (Table Text D) → Result HashError (Unit {0})
  verdict h chunks (err e) = err e
  verdict h chunks (ok gots) = if one_matches h (feed chunks gots) then ok tt else err mismatch

  unfoldable pub check_against_chunks : Hashes → List Chunk → Result HashError (Unit {0})
  check_against_chunks h chunks = verdict h chunks (start h.allowed_internal)

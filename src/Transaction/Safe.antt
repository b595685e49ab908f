-- ===== src/Transaction/Safe.antt =====
-- While `commit` runs, `rollback` would bring back what stood at a path.
use core_pip.Prelude.{
  ℕ, ◌≡◌, Bool, true, false, not, ◌||◌, Option, none, some, Text, text_ord, ◌=?◌, is_some,
  Option-cases, Bool-cases, inl, inr, arith,
}
use core_pip.Caches.{lookup}
use core_pip.Controls.{has}
use core_pip.Transaction.FileSystem.{Node, Disk}
use core_pip.Transaction.Staging.{record_created}
use core_pip.Transaction.Rollback.{State, Run, returned, raised, continue, is_under}
use core_pip.Transaction.Recovered.{IsNumbered, origin, origin_under, recovered, AreOutside}

abbrev pub is_stored : Option Text → Disk → Bool
is_stored none d = true
is_stored (some b) d = is_some (d b)

-- What `validate` has recorded of the path is right.
abbrev pub is_right : Option Bool → Option Node → Bool
is_right none before = true
is_right (some true) before = is_some before
is_right (some false) before = not (is_some before)

pub record Safe (temporary q : Text) (before : Option Node) (s : State) : Type 0 where
  pub at_temporary : s.transaction.temporary_internal ≡ temporary
  pub numbered : IsNumbered temporary s.transaction.backups
  pub apart : AreOutside temporary s.transaction.created_internal
  pub kept : recovered q s ≡ before
  pub stored : is_stored (origin q s.transaction.backups) s.disk ≡ true
  pub listed : is_right (lookup q s.transaction.destination_presence) before ≡ true

-- The path is backed up, or it was created.
abbrev pub is_covered : Text → State → Bool
is_covered q s = is_some (origin q s.transaction.backups) || has q s.transaction.created_internal

-- The path is backed up, or nothing stood there.
abbrev pub is_guarded : Text → Option Node → State → Bool
is_guarded q before s = is_some (origin q s.transaction.backups) || not (is_some before)

abbrev pub SameUnder : Text → Disk → Disk → Type 0
SameUnder temporary d d' = (p : Text) → is_under temporary p ≡ true → d' p ≡ d p

module _ (temporary q : Text) (before : Option Node) (s : State)
    (safe : Safe temporary q before s) where
  -- A change of the disk that does not touch the backups, nor the path unless it is covered
  pub changed_disk :
      (d : Disk) (n : ℕ)
      → SameUnder temporary s.disk d
      → (is_covered q s ≡ false → d q ≡ s.disk q)
      → Safe temporary q before (record s { disk = d; calls = n })
  changed_disk d n same here = elim (Option-cases (origin q s.transaction.backups)) [
    | inl missed ↦ record {
      at_temporary = safe.at_temporary;
      numbered = safe.numbered;
      apart = safe.apart;
      kept = elim (Bool-cases (has q s.transaction.created_internal)) [
        | inl made ↦ ground (arith, missed, made, safe.kept)
        | inr other ↦ ground (arith, missed, other, safe.kept, here (ground (arith, missed, other)))
      ];
      stored = ground (arith, missed);
      listed = safe.listed;
    }
    | inr (b, found) ↦
        let under = origin_under temporary q b s.transaction.backups safe.numbered found in
        record {
          at_temporary = safe.at_temporary;
          numbered = safe.numbered;
          apart = safe.apart;
          kept = ground (arith, found, same b under, safe.kept);
          stored = ground (arith, found, same b under, safe.stored);
          listed = safe.listed;
        }
  ]

  -- A guarded path is put and recorded.
  pub recorded :
      (p : Text) (d : Disk) (n : ℕ)
      → is_under temporary p ≡ false
      → SameUnder temporary s.disk d
      → ((q =? p) ≡ false → d q ≡ s.disk q)
      → ((q =? p) ≡ true → is_guarded q before s ≡ true)
      → Safe temporary q before
          (record s { disk = d; calls = n; transaction = record_created p s.transaction })
  recorded p d n out same elsewhere guard = elim (Option-cases (origin q s.transaction.backups)) [
    | inl missed ↦ record {
      at_temporary = safe.at_temporary;
      numbered = safe.numbered;
      apart = ground (arith, safe.apart);
      kept = elim (Bool-cases (q =? p)) [
        | inl at ↦ unfold has in ground (arith, missed, at, guard at)
        | inr other ↦ unfold has in ground (arith, missed, other, safe.kept, elsewhere other)
      ];
      stored = ground (arith, missed);
      listed = safe.listed;
    }
    | inr (b, found) ↦
        let under = origin_under temporary q b s.transaction.backups safe.numbered found in
        record {
          at_temporary = safe.at_temporary;
          numbered = safe.numbered;
          apart = ground (arith, safe.apart);
          kept = ground (arith, found, same b under, safe.kept);
          stored = ground (arith, found, same b under, safe.stored);
          listed = safe.listed;
        }
  ]

-- An outcome: what holds of the state in any case, and what holds behind the statement besides.
abbrev pub Ensures : (P Q : State → Type 0) → Run → Type 0
Ensures P Q (returned s) = P s × Q s
Ensures P Q (raised e s) = P s

pub continue-Ensures :
    (P Q R : State → Type 0) (r : Run) (f : State → Run)
    → Ensures P Q r
    → ((s : State) → P s → Q s → Ensures P R (f s))
    → Ensures P R (continue r f)
continue-Ensures P Q R (returned s) f (p, q) next = next s p q
continue-Ensures P Q R (raised e s) f p next = p

pub Ensures-weaken :
    (P Q R : State → Type 0) (r : Run) → Ensures P Q r → ((s : State) → Q s → R s) → Ensures P R r
Ensures-weaken P Q R (returned s) (p, q) weaker = (p, weaker s q)
Ensures-weaken P Q R (raised e s) p weaker = p

-- What a run leaves if it raises, and if it returns.
abbrev pub Leaves : (P R : State → Type 0) → Run → Type 0
Leaves P R (returned s) = R s
Leaves P R (raised e s) = P s

pub Leaves-continue :
    (P Q R : State → Type 0) (r : Run) (f : State → Run)
    → Ensures P Q r
    → ((s : State) → P s → Q s → Leaves P R (f s))
    → Leaves P R (continue r f)
Leaves-continue P Q R (returned s) f (p, q) next = next s p q
Leaves-continue P Q R (raised e s) f p next = p

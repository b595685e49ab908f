-- ===== src/Transaction/Ready.antt =====
-- A transaction before its commit, and what its paths are safe by.
use core_pip.Prelude.{
  ◌≡◌, ◌∙◌, refl, inl, inr, Bool, true, false, ◌&&◌, Option, none, some, List, [], ◌∷◌, Text,
  text_ord, ◌=?◌, =?_iff, some_of, is_some, Option-cases, Bool-cases, arith,
}
use core_pip.Caches.{lookup}
use core_pip.Controls.{has}
use core_pip.Hashes.{sorted, has-sorted}
use core_pip.Transaction.FileSystem.{Node, is_visible_backup}
use core_pip.Transaction.Staging.{InstallTransaction}
use core_pip.Transaction.Rollback.{State}
use core_pip.Transaction.Recovered.{origin, is_visible_at, AreOutside}
use core_pip.Transaction.Safe.{Safe}
use core_pip.Transaction.Staged.{IsStaged}
use core_pip.Transaction.Validated.{IsUntouched}

-- Nothing stands there, or something that `os.path.exists` still sees in the temporary directory.
abbrev pub is_sturdy : Option Node → Bool
is_sturdy none = true
is_sturdy (some n) = is_visible_backup (some n)

-- A transaction before its commit
pub record IsReady (t : InstallTransaction) : Type 0 where
  pub staged : IsStaged t
  pub untouched : IsUntouched t
  pub unlisted : t.destination_presence ≡ []
  pub deletions_outside : AreOutside t.temporary_internal t.deletions

pub Safe-visible :
    (temporary q : Text) (before : Option Node) (s : State)
    → Safe temporary q before s
    → is_sturdy before ≡ true
    → is_visible_at (origin q s.transaction.backups) s.disk ≡ true
Safe-visible temporary q before s safe sturdy =
    elim (Option-cases (origin q s.transaction.backups)) [
      | inl missed ↦ rw missed
      | inr (b, found) ↦
          let there : s.disk b ≡ before = ground (arith, found, safe.kept) in
          let seen : is_some before ≡ true = ground (arith, found, there, safe.stored) in
          rw (found, is_visible_at, there) (sturdy_seen before sturdy seen)
    ]
  where
    sturdy_seen :
        (o : Option Node) → is_sturdy o ≡ true → is_some o ≡ true → is_visible_backup o ≡ true
    sturdy_seen none h e = cc
    sturdy_seen (some n) h e = h

pub none_deleted :
    (p : Text) (l m : List Text)
    → some_of (λ u. has u m) l ≡ false
    → has p l ≡ true
    → has p m ≡ false
unfolding has
none_deleted p [] m h e = cc
none_deleted p (u ∷ l) m h e = elim (Bool-cases (p =? u)) [
  | inl at ↦ let same : p ≡ u = (=?_iff p u).0 at in ground (arith, h, same)
  | inr other ↦ ground (arith, h, e, other, none_deleted p l m)
]

-- No path is both put and deleted.
pub never_both :
    (q : Text) (put put' orders deleted : List Text)
    → has q put' ≡ has q put
    → has q orders ≡ has q put
    → some_of (λ u. has u deleted) orders ≡ false
    → (has q (sorted deleted) && has q put') ≡ false
never_both q put put' orders deleted made same once = elim (Bool-cases (has q put)) [
  | inl e ↦
      ground
        (arith, e, made, same, has-sorted q deleted, none_deleted q orders deleted once (same ∙ e))
  | inr e ↦ ground (arith, e, made)
]

-- Before anything is moved, nothing has to be restored.
pub ready_Safe :
    (s : State) (q : Text)
    → IsReady s.transaction
    → Safe s.transaction.temporary_internal q (s.disk q) s
ready_Safe s q ready = record {
  at_temporary = refl;
  numbered = rw ready.untouched.backups tt;
  apart = rw ready.untouched.created;
  kept = unfold has in rw (ready.untouched.backups, ready.untouched.created);
  stored = rw ready.untouched.backups;
  listed = unfold lookup in rw ready.unlisted;
}

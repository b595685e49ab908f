-- ===== src/Transaction/Recovered.antt =====
-- What stands at a path when `rollback` is done.
use mathlib.Core.List.{append_assoc}
use core_pip.Prelude.{
  ℕ, ◌<◌, ◌≡◌, ◌∙◌, ap, sym, refl, Bool, true, false, not, Option, none, some, some_inj, List, [],
  ◌∷◌, ◌++◌, Text, text_ord, ◌=?◌, =?_iff, every, length, strip_prefix, Option-cases, Bool-cases,
  inl, inr, if◌then◌else◌, arith,
}
use core_pip.Version.Decimal.{str_of, int_of, int_of-str_of}
use core_pip.Controls.{has}
use core_pip.Transaction.FileSystem.{Node, Disk, put, is_visible_backup}
use core_pip.Transaction.Rollback.{
  State, backup_path, is_under, unlink_all, restore_one, restore_all, rollback,
}

pub put_at : (p q : Text) (o : Option Node) (d : Disk) → put p o d q ≡ (if q =? p then o else d q)
unfolding put
put_at p q o d = refl

strip_prefix-append : (p u : Text) → strip_prefix p (p ++ u) ≡ some u
strip_prefix-append [] u = refl
strip_prefix-append (c ∷ p) u = ground (arith, strip_prefix-append p u)

name_of_backup :
    (t : Text) (n : ℕ) → strip_prefix (t ++ (b'/' ∷ [])) (backup_path t n) ≡ some (str_of n)
name_of_backup t n =
    ap (strip_prefix (t ++ (b'/' ∷ []))) (sym (append_assoc t (b'/' ∷ []) (str_of n)))
    ∙ strip_prefix-append (t ++ (b'/' ∷ [])) (str_of n)

pub is_under-backup_path : (t : Text) (n : ℕ) → is_under t (backup_path t n) ≡ true
is_under-backup_path t n = ground (arith, name_of_backup t n)

backup_path_inj : (t : Text) (n m : ℕ) → backup_path t n ≡ backup_path t m → n ≡ m
backup_path_inj t n m e =
    sym (int_of-str_of n)
    ∙ ap int_of (
        some_inj
          (sym (name_of_backup t n) ∙ ap (strip_prefix (t ++ (b'/' ∷ []))) e ∙ name_of_backup t m))
    ∙ int_of-str_of m

pub backup_path_ne : (t : Text) (n m : ℕ) → n < m → (backup_path t n =? backup_path t m) ≡ false
backup_path_ne t n m h = elim (Bool-cases (backup_path t n =? backup_path t m)) [
  | inl e ↦
      let same : n ≡ m = backup_path_inj t n m ((=?_iff (backup_path t n) (backup_path t m)).0 e) in
      absurd (omega arith)
  | inr e ↦ e
]

-- A path in the temporary directory is none that stands elsewhere.
pub under_ne : (t p q : Text) → is_under t p ≡ true → is_under t q ≡ false → (p =? q) ≡ false
under_ne t p q h k = elim (Bool-cases (p =? q)) [
  | inl e ↦ let same : p ≡ q = (=?_iff p q).0 e in cc
  | inr e ↦ e
]

pub ne_under : (t p q : Text) → is_under t p ≡ true → is_under t q ≡ false → (q =? p) ≡ false
ne_under t p q h k = elim (Bool-cases (q =? p)) [
  | inl e ↦ let same : q ≡ p = (=?_iff q p).0 e in cc
  | inr e ↦ e
]

-- Backups newest first, each named by its number, of paths that stand outside.
abbrev pub IsNumbered : Text → List (Text × Text) → Type 0
IsNumbered t [] = Unit {0}
IsNumbered t ((o, b) ∷ l) = (b ≡ backup_path t (length l)) × (is_under t o ≡ false) × IsNumbered t l

abbrev pub first_of : Option Text → Bool → Text → Option Text
first_of (some x) here b = some x
first_of none here b = if here then some b else none

-- The oldest backup of a path.
abbrev pub origin : Text → List (Text × Text) → Option Text
origin q [] = none
origin q ((o, b) ∷ l) = first_of (origin q l) (q =? o) b

abbrev pub OriginNumber : Text → ℕ → Text → Type 0
OriginNumber t n x = (i : ℕ) × (i < n) × (x ≡ backup_path t i)

pub origin_number :
    (t q x : Text) (l : List (Text × Text))
    → IsNumbered t l
    → origin q l ≡ some x
    → OriginNumber t (length l) x
origin_number t q x [] n e = cc
origin_number t q x ((o, b) ∷ l) (named, out, n) e = elim (Option-cases (origin q l)) [
  | inl missed ↦ (length l, omega arith, ground (arith, named, missed))
  | inr (y, found) ↦
      let (i, lt, at) = origin_number t q x l n (ground (arith, found, e)) in (i, omega arith, at)
]

pub origin_under :
    (t q x : Text) (l : List (Text × Text))
    → IsNumbered t l
    → origin q l ≡ some x
    → is_under t x ≡ true
origin_under t q x l n e =
    let (i, lt, at) = origin_number t q x l n e in rw at (is_under-backup_path t i)

abbrev pub is_visible_at : Option Text → Disk → Bool
is_visible_at none d = true
is_visible_at (some b) d = is_visible_backup (d b)

abbrev pub origin_or : Option Text → Disk → Option Node → Option Node
origin_or none d o = o
origin_or (some b) d o = d b

pub restore_one_at :
    (o b p : Text) (d : Disk)
    → restore_one o b d p ≡ (
        if is_visible_backup (d b)
        then (if p =? o then d b else if p =? b then none else d p)
        else d p)
unfolding put
restore_one_at o b p d = ground arith

restore_all_lem :
    (t q : Text) (l : List (Text × Text)) (d : Disk)
    → is_under t q ≡ false
    → IsNumbered t l
    → is_visible_at (origin q l) d ≡ true
    → restore_all l d q ≡ origin_or (origin q l) d (d q)
unfolding restore_all
restore_all_lem t q [] d out n seen = refl
restore_all_lem t q ((o, b) ∷ l) d out (named, o_out, n) seen = elim (Option-cases (origin q l)) [
  | inl missed ↦
      let q_b : (q =? b) ≡ false =
        ne_under t b q (rw named (is_under-backup_path t (length l))) out in
      ground (
        arith,
        missed,
        restore_all_lem t q l (restore_one o b d) out n (rw missed),
        restore_one_at o b q d,
      )
  | inr (x, found) ↦
      let (i, lt, at) = origin_number t q x l n found in
      let x_b : (x =? b) ≡ false = rw (at, named) (backup_path_ne t i (length l) lt) in
      let x_o : (x =? o) ≡ false = under_ne t x o (rw at (is_under-backup_path t i)) o_out in
      ground (
        arith,
        found,
        restore_all_lem t q l (restore_one o b d) out n
            (ground (arith, found, seen, restore_one_at o b x d)),
        restore_one_at o b x d,
      )
]

pub unlink_all_at :
    (l : List Text) (d : Disk) (p : Text) → unlink_all l d p ≡ (if has p l then none else d p)
unfolding unlink_all has put
unlink_all_at [] d p = refl
unlink_all_at (path ∷ l) d p = ground (arith, unlink_all_at l (put path none d) p)

-- What `rollback` will bring back to a path: its oldest backup, nothing where the transaction has
-- put the first thing, and otherwise what stands there.
abbrev pub recovered : Text → State → Option Node
recovered q s =
    origin_or (origin q s.transaction.backups) s.disk
      (if has q s.transaction.created_internal then none else s.disk q)

-- The paths that the transaction created stand outside its temporary directory.
abbrev pub AreOutside : Text → List Text → Type 0
AreOutside t l = every (λ p. not (is_under t p)) l ≡ true

pub has_outside :
    (t p : Text) (l : List Text) → AreOutside t l → is_under t p ≡ true → has p l ≡ false
unfolding has
has_outside t p [] h k = refl
has_outside t p (u ∷ l) h k = elim (Bool-cases (is_under t u)) [
  | inl e ↦ cc
  | inr e ↦ ground (arith, under_ne t p u k e, has_outside t p l (ground (arith, h, e)) k)
]

pub rollback_lem :
    (q : Text) (s : State)
    → let t = s.transaction in
      is_under t.temporary_internal q ≡ false
      → IsNumbered t.temporary_internal t.backups
      → AreOutside t.temporary_internal t.created_internal
      → is_visible_at (origin q t.backups) s.disk ≡ true
      → (rollback s).disk q ≡ recovered q s
unfolding rollback
rollback_lem q s out n apart seen =
    let t = s.transaction in
    let d = unlink_all t.created_internal s.disk in
    elim (Option-cases (origin q t.backups)) [
      | inl missed ↦ ground (
        arith,
        missed,
        restore_all_lem t.temporary_internal q t.backups d out n (rw missed),
        unlink_all_at t.created_internal s.disk q,
      )
      | inr (b, found) ↦
          let under = origin_under t.temporary_internal q b t.backups n found in
          let kept : d b ≡ s.disk b =
            unlink_all_at t.created_internal s.disk b
            ∙ rw (has_outside t.temporary_internal b t.created_internal apart under) in
          ground (
            arith,
            found,
            kept,
            restore_all_lem t.temporary_internal q t.backups d out n
                (ground (arith, found, kept, seen)),
          )
    ]

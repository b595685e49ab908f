-- ===== src/Transaction/Calm.antt =====
-- The loops of a commit that no call of the operating system interrupts, and the whole commit.
use core_pip.Prelude.{
  ℕ, ◌+◌, ◌≡◌, ◌∙◌, ap, sym, refl, Bool, true, false, ◌||◌, Option, none, some, List, [], ◌∷◌, Text,
  text_ord, ◌=?◌, =?_iff, is_some, some_inj, subst, some_of, Bool-cases, inl, inr, if◌then◌else◌,
  arith,
}
use core_pip.Caches.{lookup, lookup-insert}
use core_pip.Controls.{TextSet, has, add}
use core_pip.Hashes.{sorted, has-sorted}
use core_pip.Transaction.FileSystem.{Disk}
use core_pip.Transaction.Staging.{StagedFile, already_finished}
use core_pip.Transaction.Rollback.{State, Run, returned, raised, continue, is_under}
use core_pip.Transaction.Commit.{
  nothing_left, lacks_source, source_contents, record_presence, is_unrelated, validate_items,
  validate, overlaps, backup_if_needed, make_parent, place, install_items, delete_all, commit_body,
  rolled_back, commit,
}
use core_pip.Transaction.Installed.{destinations, AreDistinct, has_cons}
use core_pip.Transaction.Staged.{has-append, IsStaged}
use core_pip.Transaction.Ready.{none_deleted}
use core_pip.Transaction.Placed.{AreSettled}
use core_pip.Transaction.Finished.{outcome_at}
use core_pip.Transaction.Whole.{commit-outcome}
use core_pip.Transaction.Undisturbed.{
  Succeeds, Succeeds-continue, Succeeds-weaken, Keeps, Keeps-both, sources, source_of, is_moved,
  AreFree, call-Succeeds, backup-Succeeds, place-Succeeds,
}

module _ (normalized dirname : Text → Text) (cross_device : Text → Text → Bool) (umask : ℕ)
    (fault : ℕ → Option ℕ) (calm : (n : ℕ) → fault n ≡ none) where
  -- What the loop over the staged files needs: what `validate` found at a destination is there, and
  -- so is each source.
  record IsStocked (items : List StagedFile) (s : State) : Type 0 where
    seen :
        (p : Text)
        → has p (destinations items) ≡ true
        → lookup p s.transaction.destination_presence ≡ some true
        → is_some (s.disk p) ≡ true
    supplied : (p : Text) → has p (sources items) ≡ true → is_some (s.disk p) ≡ true

  -- What the transaction has recorded is as it was.
  abbrev SameRecord : State → State → Type 0
  SameRecord s s' =
      (s'.transaction.destination_presence ≡ s.transaction.destination_presence)
      × (s'.transaction.deletions ≡ s.transaction.deletions)

  parent-Succeeds :
      (e : Text → Bool) (s0 : State) (directories : TextSet) (p : Text) (s : State)
      → Keeps e s0 s
      → Succeeds
          (Keeps e s0)
          (make_parent normalized dirname cross_device umask fault directories p s)
  parent-Succeeds e s0 directories p s k = elim (Bool-cases (has (dirname p) directories)) [
    | inl made ↦ rw (made, Succeeds) k
    | inr missing ↦ rw missing (
        call-Succeeds normalized dirname cross_device umask fault calm e s0 nothing_left (λ d. d) s
          k (λ q at here. here))
  ]

  has_ne : (p q : Text) (l : List Text) → has p l ≡ false → has q l ≡ true → (q =? p) ≡ false
  has_ne p q l out within = elim (Bool-cases (q =? p)) [
    | inl at ↦
        let same : q ≡ p = (=?_iff q p).0 at in
        let clash : has p l ≡ true = ap (λ t. has t l) (sym same) ∙ within in cc
    | inr other ↦ other
  ]

  -- One staged file, and what comes behind it
  item-Succeeds :
      (R : State → Type 0) (rest : State → Run) (i : StagedFile) (items : List StagedFile)
      (directories : TextSet) (s : State)
      → has i.destination_text (sources (i ∷ items)) ≡ false
      → IsStocked (i ∷ items) s
      → ((s' : State)
          → Keeps (λ q. q =? i.destination_text || is_moved i.payload q) s s'
          → Succeeds R (rest s'))
      → Succeeds R (
          continue
            (backup_if_needed normalized dirname cross_device umask fault i.destination_text s)
            λ s1.
              continue
                (make_parent normalized dirname cross_device umask fault directories
                  i.destination_text s1)
                λ s2.
                  continue
                    (place normalized dirname cross_device umask fault i.payload i.destination_text
                      i.mode s2)
                    rest)
  item-Succeeds R rest i items directories s free stocked next =
      let p = i.destination_text in
      let at = λ (q : Text). q =? p in
      Succeeds-continue (Keeps at s) R
        (backup_if_needed normalized dirname cross_device umask fault p s) _
        (backup-Succeeds normalized dirname cross_device umask fault calm p s
          (stocked.seen p (ground (arith, has_cons p p (destinations items), =?_iff p p))))
        λ s1 k1.
          Succeeds-continue (Keeps at s) R
            (make_parent normalized dirname cross_device umask fault directories p s1) _
            (parent-Succeeds at s directories p s1 k1)
            λ s2 k2.
              Succeeds-continue (Keeps (is_moved i.payload) s2) R
                (place normalized dirname cross_device umask fault i.payload p i.mode s2) rest
                (place-Succeeds normalized dirname cross_device umask fault calm i.payload p i.mode
                  s2
                  (λ q h.
                    let within : has q (sources (i ∷ items)) ≡ true =
                      has-append q (source_of i.payload) (sources items) ∙ rw h in
                    k2.kept q (has_ne p q (sources (i ∷ items)) free within)
                      (stocked.supplied q within)))
                (λ s' k. next s' (Keeps-both at (is_moved i.payload) s s2 s' k2 k))

  -- What one staged file leaves to the later ones
  still-IsStocked :
      (i : StagedFile) (items : List StagedFile) (s s' : State)
      → AreFree (i ∷ items)
      → has i.destination_text (destinations items) ≡ false
      → Keeps (λ q. q =? i.destination_text || is_moved i.payload q) s s'
      → IsStocked (i ∷ items) s
      → IsStocked items s'
  still-IsStocked i items s s' (free, moves, later) once k stocked = record {
    seen = λ q there listed.
        k.kept q
          (ground
            (arith, has_ne i.destination_text q (destinations items) once there, moves q, there))
          (stocked.seen q
            (ground (arith, has_cons q i.destination_text (destinations items), there))
            (ap (lookup q) (sym k.table) ∙ listed));
    supplied = λ q there.
        let within : has q (sources (i ∷ items)) ≡ true =
          ground (arith, has-append q (source_of i.payload) (sources items), there) in
        k.kept q
          (ground
            (arith, has_ne i.destination_text q (sources (i ∷ items)) free within, moves q, there))
          (stocked.supplied q within);
  }

  install_items-Succeeds :
      (items : List StagedFile) (directories : TextSet) (s0 s : State)
      → AreFree items
      → AreDistinct (destinations items)
      → IsStocked items s
      → SameRecord s0 s
      → Succeeds
          (SameRecord s0)
          (install_items normalized dirname cross_device umask fault directories items s)
  unfolding install_items
  install_items-Succeeds [] directories s0 s free distinct stocked same = same
  install_items-Succeeds (i ∷ items) directories s0 s (out, moves, free) (once, distinct) stocked
        same =
      item-Succeeds (SameRecord s0)
        (install_items normalized dirname cross_device umask fault
          (add (dirname i.destination_text) directories) items)
        i items directories s out stocked
        (λ s' k.
          install_items-Succeeds items (add (dirname i.destination_text) directories) s0 s' free
            distinct (still-IsStocked i items s s' (out, moves, free) once k stocked)
            (k.table ∙ same.0, k.deletions ∙ same.1))

  delete_all-Succeeds :
      (paths : List Text) (s : State)
      → ((p : Text) → has p paths ≡ true → lookup p s.transaction.destination_presence ≡ none)
      → Succeeds (λ s'. Unit {0}) (delete_all normalized dirname cross_device umask fault paths s)
  unfolding delete_all
  delete_all-Succeeds [] s new = tt
  delete_all-Succeeds (p ∷ paths) s new =
      let here : lookup p s.transaction.destination_presence ≡ none =
        new p (ground (arith, has_cons p p paths, =?_iff p p)) in
      Succeeds-continue (Keeps (λ q. q =? p) s) (λ s'. Unit {0})
        (backup_if_needed normalized dirname cross_device umask fault p s)
        (delete_all normalized dirname cross_device umask fault paths)
        (backup-Succeeds normalized dirname cross_device umask fault calm p s (λ listed. cc))
        (λ s' k.
          delete_all-Succeeds paths s'
            (λ q h. ap (lookup q) k.table ∙ new q (ground (arith, has_cons q p paths, h))))

  -- The checks of `validate` pass at a staged file.
  abbrev pub IsAllowed : State → StagedFile → Type 0
  IsAllowed s i =
      (lacks_source i.payload s.disk ≡ false)
      × (is_unrelated normalized dirname cross_device umask fault s.transaction i
            (source_contents i.payload s.disk) (s.disk i.destination_text)
          ≡ false)

  abbrev pub AreAllowed : State → List StagedFile → Type 0
  AreAllowed s [] = Unit {0}
  AreAllowed s (i ∷ items) = IsAllowed s i × AreAllowed s items

  -- What `validate` leaves: only what it recorded of destinations is new, and that is right.
  record IsLookedAt (items : List StagedFile) (s s' : State) : Type 0 where
    disk : s'.disk ≡ s.disk
    owned : s'.transaction.owned ≡ s.transaction.owned
    deletions : s'.transaction.deletions ≡ s.transaction.deletions
    staged : s'.transaction.staged_internal ≡ s.transaction.staged_internal
    orders : s'.transaction.staged_destinations ≡ s.transaction.staged_destinations
    right :
        (p : Text)
        → lookup p s'.transaction.destination_presence ≡ some true
        → is_some (s.disk p) ≡ true
    only :
        (p : Text)
        → has p (destinations items) ≡ false
        → lookup p s'.transaction.destination_presence ≡ lookup p s.transaction.destination_presence

  -- The record of another destination changes nothing of the checks.
  allowed_later :
      (i : StagedFile) (items : List StagedFile) (s : State)
      → AreAllowed s items
      → AreAllowed (record_presence i (record s { calls = s.calls + 1 })) items
  allowed_later i [] s allowed = tt
  allowed_later i (j ∷ items) s (here, allowed) = (here, allowed_later i items s allowed)

  validate_items_succeed :
      (items : List StagedFile) (s : State)
      → AreAllowed s items
      → ((p : Text)
          → lookup p s.transaction.destination_presence ≡ some true
          → is_some (s.disk p) ≡ true)
      → Succeeds
          (IsLookedAt items s)
          (validate_items normalized dirname cross_device umask fault items s)
  unfolding validate_items
  validate_items_succeed [] s allowed right = record {
    disk = refl;
    owned = refl;
    deletions = refl;
    staged = refl;
    orders = refl;
    right = right;
    only = λ p h. refl;
  }
  validate_items_succeed (i ∷ items) s ((found, related), allowed) right =
      let d = i.destination_text in
      let table = s.transaction.destination_presence in
      let s1 = record_presence i (record s { calls = s.calls + 1 }) in
      let recorded = λ (p : Text). lookup-insert d p (is_some (s.disk d)) table in
      rw (found, calm s.calls, continue, related)
        (Succeeds-weaken (IsLookedAt items s1) (IsLookedAt (i ∷ items) s)
          (validate_items normalized dirname cross_device umask fault items s1)
          (validate_items_succeed items s1 (allowed_later i items s allowed) (λ p h.
            elim (Bool-cases (p =? d)) [
              | inl at ↦
                  let same : p ≡ d = (=?_iff p d).0 at in
                  let e : some (is_some (s.disk d)) ≡ some true = sym (recorded p ∙ rw at) ∙ h in
                  rw same (some_inj e)
              | inr other ↦ right p (sym (recorded p ∙ rw other) ∙ h)
            ]))
          (λ s' l. record {
            disk = l.disk;
            owned = l.owned;
            deletions = l.deletions;
            staged = l.staged;
            orders = l.orders;
            right = l.right;
            only = λ p new.
                let other : (p =? d) ≡ false =
                  ground (arith, has_cons p d (destinations items), new) in
                l.only p (ground (arith, has_cons p d (destinations items), new))
                ∙ recorded p
                ∙ rw other;
          }))

  -- A commit that is not interrupted: nothing has been done before, no path is both put and deleted,
  -- the checks pass, and the files that are taken are there until they are.
  pub record IsSound (s : State) : Type 0 where
    pub going : s.transaction.finished ≡ false
    pub unlisted : s.transaction.destination_presence ≡ []
    pub staged : IsStaged s.transaction
    pub once : overlaps s.transaction ≡ false
    pub allowed : AreAllowed s s.transaction.staged_internal
    pub free : AreFree s.transaction.staged_internal
    pub supplied :
        (p : Text)
        → has p (sources s.transaction.staged_internal) ≡ true
        → is_some (s.disk p) ≡ true

  lookup_empty : (p : Text) → lookup {V = Bool} p [] ≡ none
  unfolding lookup
  lookup_empty p = refl

  apart_of :
      (p : Text) (s : State)
      → IsSound s
      → has p s.transaction.deletions ≡ true
      → has p (destinations s.transaction.staged_internal) ≡ false
  apart_of p s sound deleted = elim (Bool-cases (has p s.transaction.staged_destinations)) [
    | inl e ↦
        let out =
          none_deleted p s.transaction.staged_destinations s.transaction.deletions sound.once e in
        let clash : true ≡ false = sym deleted ∙ out in cc
    | inr e ↦ sym (sound.staged.agree p) ∙ e
  ]

  validate-Succeeds :
      (s : State)
      → IsSound s
      → Succeeds
          (IsLookedAt s.transaction.staged_internal s)
          (validate normalized dirname cross_device umask fault s)
  unfolding validate
  validate-Succeeds s sound =
      let items = s.transaction.staged_internal in
      Succeeds-continue (IsLookedAt items s) (IsLookedAt items s)
        (validate_items normalized dirname cross_device umask fault items s) _
        (validate_items_succeed items s sound.allowed (λ p h.
          let none_listed : lookup p s.transaction.destination_presence ≡ none =
            ap (lookup p) sound.unlisted ∙ lookup_empty p in
          let clash : none ≡ some true = sym none_listed ∙ h in cc))
        (λ s' l.
          let same : overlaps s'.transaction ≡ false =
            subst
              (λ (x : TextSet). some_of (λ p. has p x) s'.transaction.staged_destinations ≡ false)
              (sym l.deletions)
              (subst (λ (x : TextSet). some_of (λ p. has p s.transaction.deletions) x ≡ false)
                (sym l.orders) sound.once) in
          rw (same, Succeeds) l)

  commit_body-Succeeds :
      (finalize : Bool) (s : State)
      → IsSound s
      → Succeeds
          (λ s'. Unit {0})
          (commit_body normalized dirname cross_device umask fault finalize s)
  unfolding commit_body
  commit_body-Succeeds finalize s sound =
      let items = s.transaction.staged_internal in
      let done : State → Type 0 = λ s'. Unit {0} in
      Succeeds-continue (IsLookedAt items s) done
        (validate normalized dirname cross_device umask fault s) _ (validate-Succeeds s sound)
        λ s1 l.
          Succeeds-continue (SameRecord s1) done
            (install_items normalized dirname cross_device umask fault []
              s1.transaction.staged_internal s1)
            _
            (subst
              (λ (x : List StagedFile).
                Succeeds (SameRecord s1)
                  (install_items normalized dirname cross_device umask fault [] x s1))
              (sym l.staged)
              (install_items-Succeeds items [] s1 s1 sound.free sound.staged.distinct
                (record {
                  seen = λ p h listed. ap (λ (d : Disk). is_some (d p)) l.disk ∙ l.right p listed;
                  supplied = λ p h. ap (λ (d : Disk). is_some (d p)) l.disk ∙ sound.supplied p h;
                })
                (refl, refl)))
            λ s2 same.
              Succeeds-continue done done
                (delete_all normalized dirname cross_device umask fault
                  (sorted s2.transaction.deletions) s2)
                _
                (delete_all-Succeeds (sorted s2.transaction.deletions) s2 (λ p h.
                  let deleted : has p s.transaction.deletions ≡ true =
                    ap (has p) (sym (same.1 ∙ l.deletions))
                    ∙ sym (has-sorted p s2.transaction.deletions)
                    ∙ h in
                  ap (lookup p) same.0
                  ∙ l.only p (apart_of p s sound deleted)
                  ∙ ap (lookup p) sound.unlisted
                  ∙ lookup_empty p))
                (λ s3 u. tt)

  unrolled :
      (b : Bool) (s : State) (r : Run)
      → b ≡ false
      → Succeeds (λ s'. Unit {0}) r
      → Succeeds
          (λ s'. Unit {0})
          (if b
            then raised already_finished s
            else rolled_back normalized dirname cross_device umask fault r)
  unrolled true s r going h = cc
  unrolled false s (returned s') going h = tt
  unrolled false s (raised e s') going h = h

  commit_lem :
      (finalize : Bool) (s : State)
      → IsSound s
      → Succeeds (λ s'. Unit {0}) (commit normalized dirname cross_device umask fault finalize s)
  unfolding commit
  commit_lem finalize s sound =
      unrolled s.transaction.finished s
        (commit_body normalized dirname cross_device umask fault finalize s) sound.going
        (commit_body-Succeeds finalize s sound)

  -- If no call of the operating system raises and the checks pass, a commit returns, and it leaves at
  -- every path `q` what the orders say: nothing if `q` is deleted; otherwise the bytes of the last
  -- staged file that is written there, with its mode, or 0o666 without the bits of the umask; and if
  -- none is, what stood there. (The transaction has not finished and was staged by its methods, no
  -- path is both put and deleted, the sources are there, no file is put at the source of this file or
  -- a later one, and none is moved away that a later one is put at or taken from; `q` stands outside
  -- the temporary directory, and no staged file is moved or cloned to it or moved from it.)
  pub commit-Succeeds :
      (finalize : Bool) (s : State) (q : Text)
      (outside : is_under s.transaction.temporary_internal q ≡ false)
      → IsSound s
      → AreSettled q s.transaction.staged_internal
      → Succeeds
          (λ s'.
            s'.disk q
            ≡ outcome_at normalized dirname cross_device umask fault s.transaction q
                (s.disk q)
                outside)
          (commit normalized dirname cross_device umask fault finalize s)
  commit-Succeeds finalize s q outside sound settled =
      both _ (commit normalized dirname cross_device umask fault finalize s)
        (commit_lem finalize s sound)
        (λ s' run.
          commit-outcome normalized dirname cross_device umask fault q finalize s outside s'
            sound.staged sound.unlisted settled run)
    where
      both :
          (R : State → Type 0) (r : Run)
          → Succeeds (λ s'. Unit {0}) r
          → ((s' : State) → r ≡ returned s' → R s')
          → Succeeds R r
      both R (returned s') h ends = ends s' refl
      both R (raised e s') h ends = h

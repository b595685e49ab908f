-- ===== src/Transaction/Undisturbed.antt =====
-- A commit that no call of the operating system interrupts.
use core_pip.Prelude.{
  ℕ, ◌+◌, ◌≡◌, ◌∙◌, ap, sym, refl, Bool, true, false, ◌||◌, Option, none, some, List, [], ◌∷◌, ◌++◌,
  Text, text_ord, ◌=?◌, =?_iff, is_some, Bool-cases, inl, inr, if◌then◌else◌, arith,
}
use core_pip.Caches.{lookup}
use core_pip.Controls.{has}
use core_pip.Transaction.FileSystem.{Node, file, Disk, put, with_mode}
use core_pip.Transaction.Staging.{Payload, moved, cloned, written, StagedFile, record_created}
use core_pip.Transaction.Rollback.{State, Run, returned, raised, continue, with_transaction}
use core_pip.Transaction.Commit.{
  nothing_left, part_left, masked, is_present, attempt, move_to_backup, backup_if_needed,
  put_source, chmod_if, write_contents, mode_or_default, is_stripped, place,
}
use core_pip.Transaction.Installed.{destinations}

-- The run returns, and this holds of what it returns.
abbrev pub Succeeds : (State → Type 0) → Run → Type 0
Succeeds R (returned s) = R s
Succeeds R (raised e s) = ⊥

pub Succeeds-continue :
    (Q R : State → Type 0) (r : Run) (f : State → Run)
    → Succeeds Q r
    → ((s : State) → Q s → Succeeds R (f s))
    → Succeeds R (continue r f)
Succeeds-continue Q R (returned s) f q next = next s q
Succeeds-continue Q R (raised e s) f q next = absurd q

pub Succeeds-weaken :
    (Q R : State → Type 0) (r : Run) → Succeeds Q r → ((s : State) → Q s → R s) → Succeeds R r
Succeeds-weaken Q R (returned s) q weaker = weaker s q
Succeeds-weaken Q R (raised e s) q weaker = q

-- The orders and what `validate` recorded are as they were, and no path is emptied but those named.
pub record Keeps (emptied : Text → Bool) (s s' : State) : Type 0 where
  pub table : s'.transaction.destination_presence ≡ s.transaction.destination_presence
  pub deletions : s'.transaction.deletions ≡ s.transaction.deletions
  pub kept : (q : Text) → emptied q ≡ false → is_some (s.disk q) ≡ true → is_some (s'.disk q) ≡ true

pub Keeps-both :
    (a b : Text → Bool) (s s' s'' : State)
    → Keeps a s s'
    → Keeps b s' s''
    → Keeps (λ q. a q || b q) s s''
Keeps-both a b s s' s'' k l = record {
  table = l.table ∙ k.table;
  deletions = l.deletions ∙ k.deletions;
  kept = λ q e here. l.kept q (ground (arith, e)) (k.kept q (ground (arith, e)) here);
}

-- What the staged files are taken from
abbrev pub source_of : Payload → List Text
source_of (moved source) = source ∷ []
source_of (cloned source) = source ∷ []
source_of (written contents) = []

abbrev pub sources : List StagedFile → List Text
sources [] = []
sources (i ∷ items) = source_of i.payload ++ sources items

-- Where the source is moved away
abbrev pub is_moved : Payload → Text → Bool
is_moved (moved source) q = q =? source
is_moved _ q = false

-- No staged file is put where this one or a later one is taken from, and none is moved away twice or
-- to where a later one is put.
abbrev pub AreFree : List StagedFile → Type 0
AreFree [] = Unit {0}
AreFree (i ∷ items) =
    (has i.destination_text (sources (i ∷ items)) ≡ false)
    × ((q : Text)
        → is_moved i.payload q ≡ true
        → (has q (sources items) ≡ false) × (has q (destinations items) ≡ false))
    × AreFree items

module _ (normalized dirname : Text → Text) (cross_device : Text → Text → Bool) (umask : ℕ)
    (fault : ℕ → Option ℕ) (calm : (n : ℕ) → fault n ≡ none) where
  pub attempt-Succeeds :
      (R : State → Type 0) (left : ℕ → Disk → Disk) (effect : Disk → Disk) (s : State)
      → R (record s { disk = effect s.disk; calls = s.calls + 1 })
      → Succeeds R (attempt normalized dirname cross_device umask fault left effect s)
  attempt-Succeeds R left effect s r = rw (calm s.calls, Succeeds) r

  move-Succeeds :
      (p : Text) (n : Option Node) (s : State)
      → is_some n ≡ true
      → Succeeds
          (Keeps (λ q. q =? p) s)
          (move_to_backup normalized dirname cross_device umask fault p n s)
  move-Succeeds p none s there = cc
  move-Succeeds p (some n) s there =
      rw (calm s.calls, continue, with_transaction)
        (record {
          table = refl;
          deletions = refl;
          kept = λ q e here. unfold put in ground (arith, e, here);
        })

  pub backup-Succeeds :
      (p : Text) (s : State)
      → (lookup p s.transaction.destination_presence ≡ some true → is_some (s.disk p) ≡ true)
      → Succeeds
          (Keeps (λ q. q =? p) s)
          (backup_if_needed normalized dirname cross_device umask fault p s)
  unfolding backup_if_needed
  backup-Succeeds p s seen = elim (Bool-cases (is_present p s)) [
    | inl e ↦ rw e (move-Succeeds p (s.disk p) s (ground (arith, e, seen)))
    | inr e ↦ rw (e, Succeeds) (record { table = refl; deletions = refl; kept = λ q e' h. h })
  ]

  -- From the state `s0`, a call that empties no path
  pub call-Succeeds :
      (e : Text → Bool) (s0 : State) (left : ℕ → Disk → Disk) (effect : Disk → Disk) (s : State)
      → Keeps e s0 s
      → ((q : Text) → e q ≡ false → is_some (s.disk q) ≡ true → is_some (effect s.disk q) ≡ true)
      → Succeeds (Keeps e s0) (attempt normalized dirname cross_device umask fault left effect s)
  call-Succeeds e s0 left effect s k stays = attempt-Succeeds (Keeps e s0) left effect s (record {
    table = k.table;
    deletions = k.deletions;
    kept = λ q at here. stays q at (k.kept q at here);
  })

  chmod-Succeeds :
      (e : Text → Bool) (s0 : State) (needed : Bool) (p : Text) (mode : Option ℕ) (s : State)
      → Keeps e s0 s
      → Succeeds (Keeps e s0) (chmod_if normalized dirname cross_device umask fault needed p mode s)
  chmod-Succeeds e s0 needed p none s k = k
  chmod-Succeeds e s0 false p (some mode) s k = k
  chmod-Succeeds e s0 true p (some mode) s k =
      call-Succeeds e s0 nothing_left (λ d. put p (with_mode mode (d p)) d) s k
        (λ q at here. elim (Bool-cases (q =? p)) [
          | inl same ↦
              let eq : q ≡ p = (=?_iff q p).0 same in
              unfold put in
              rw same (moded mode (s.disk p) (ap (λ t. is_some (s.disk t)) (sym eq) ∙ here))
          | inr other ↦ unfold put in rw other here
        ])
    where
      moded : (mode : ℕ) (o : Option Node) → is_some o ≡ true → is_some (with_mode mode o) ≡ true
      moded mode none h = cc
      moded mode (some (file c old)) h = refl
      moded mode (some Node.directory) h = refl
      moded mode (some (Node.link r t)) h = refl

  -- What is taken from a source and recorded
  recorded-Succeeds :
      (e : Text → Bool) (s0 : State) (p : Text) (mode : Option ℕ) (s : State)
      → Keeps e s0 s
      → Succeeds (Keeps e s0) (
          continue
            (with_transaction (record_created p) s)
            (chmod_if normalized dirname cross_device umask fault true p mode))
  recorded-Succeeds e s0 p mode s k =
      chmod-Succeeds e s0 true p mode (record s { transaction = record_created p s.transaction })
        (record { table = k.table; deletions = k.deletions; kept = k.kept })

  put-Succeeds :
      (payload : Payload) (p : Text) (n : Option Node) (s : State)
      → is_some n ≡ true
      → Succeeds
          (Keeps (is_moved payload) s)
          (put_source normalized dirname cross_device umask fault payload p n s)
  put-Succeeds payload p none s there = cc
  put-Succeeds (written contents) p (some n) s there = record {
    table = refl;
    deletions = refl;
    kept = λ q e h. h;
  }
  put-Succeeds (moved source) p (some n) s there =
      attempt-Succeeds (Keeps (is_moved (moved source)) s)
        (λ k d. if cross_device source p then part_left p n k d else d)
        (λ d. put p (some n) (put source none d)) s
        (record {
          table = refl;
          deletions = refl;
          kept = λ q e h. unfold put in ground (arith, e, h);
        })
  put-Succeeds (cloned source) p (some n) s there =
      attempt-Succeeds (Keeps (is_moved (cloned source)) s) (part_left p n) (λ d. put p (some n) d)
        s
        (record {
          table = refl;
          deletions = refl;
          kept = λ q e h. unfold put in ground (arith, e, h);
        })

  pub place-Succeeds :
      (payload : Payload) (p : Text) (mode : Option ℕ) (s : State)
      → ((q : Text) → has q (source_of payload) ≡ true → is_some (s.disk q) ≡ true)
      → Succeeds
          (Keeps (is_moved payload) s)
          (place normalized dirname cross_device umask fault payload p mode s)
  unfolding place has
  place-Succeeds (written contents) p mode s found =
      let s1 : State = record s { transaction = record_created p s.transaction } in
      let k = is_moved (written contents) in
      Succeeds-continue (Keeps k s) (Keeps k s)
        (write_contents normalized dirname cross_device umask fault p contents
          (mode_or_default mode) s1)
        _
        (call-Succeeds k s
          (part_left p (
            file contents
              (masked normalized dirname cross_device umask fault (mode_or_default mode))))
          (λ d.
            put p
              (some (
                file contents
                  (masked normalized dirname cross_device umask fault (mode_or_default mode))))
              d)
          s1 (record { table = refl; deletions = refl; kept = λ q e h. h })
          (λ q at here. unfold put in ground (arith, here)))
        (chmod-Succeeds k s (is_stripped normalized dirname cross_device umask fault mode) p mode)
  place-Succeeds (moved source) p mode s found =
      let k = is_moved (moved source) in
      Succeeds-continue (Keeps k s) (Keeps k s) _ _
        (put-Succeeds (moved source) p (s.disk source) s
          (found source (ground (arith, =?_iff source source))))
        (recorded-Succeeds k s p mode)
  place-Succeeds (cloned source) p mode s found =
      let k = is_moved (cloned source) in
      Succeeds-continue (Keeps k s) (Keeps k s) _ _
        (put-Succeeds (cloned source) p (s.disk source) s
          (found source (ground (arith, =?_iff source source))))
        (recorded-Succeeds k s p mode)

-- ===== src/Transaction/Validated.antt =====
-- `validate` records what stands at the destinations, and changes nothing else.
use core_pip.Prelude.{
  ℕ, ◌+◌, ◌≡◌, ◌∙◌, ap, sym, refl, Bool, true, false, Option, none, some, List, [], ◌∷◌, Text,
  text_ord, ◌=?◌, =?_iff, is_some, Bool-cases, inl, inr, if◌then◌else◌,
}
use core_pip.Caches.{lookup-insert}
use core_pip.Controls.{has}
use core_pip.Transaction.FileSystem.{Node}
use core_pip.Transaction.Staging.{StagedFile, InstallTransaction, unrelated_file}
use core_pip.Transaction.Rollback.{State, returned, raised}
use core_pip.Transaction.Commit.{
  attempt, nothing_left, lacks_source, source_contents, record_presence, is_unrelated,
  validate_item, validate_items, overlaps, validate,
}
use core_pip.Transaction.Recovered.{recovered}
use core_pip.Transaction.Safe.{
  Safe, is_right, changed_disk, Ensures, continue-Ensures, Ensures-weaken,
}
use core_pip.Transaction.Placing.{attempt-Ensures}

-- Nothing is backed up and nothing was created.
pub record IsUntouched (t : InstallTransaction) : Type 0 where
  pub backups : t.backups ≡ []
  pub created : t.created_internal ≡ []

-- The orders that a transaction holds are the same.
pub record SameStaging (t t' : InstallTransaction) : Type 0 where
  pub items : t'.staged_internal ≡ t.staged_internal
  pub destinations : t'.staged_destinations ≡ t.staged_destinations
  pub deletions : t'.deletions ≡ t.deletions
  pub untouched : IsUntouched t'

untouched_disk :
    (temporary q : Text) (before : Option Node) (s : State)
    → IsUntouched s.transaction
    → Safe temporary q before s
    → s.disk q ≡ before
untouched_disk temporary q before s u safe =
    let here : recovered q s ≡ s.disk q = unfold has in rw (u.backups, u.created) in
    sym here ∙ safe.kept

pub is_right_self : (o : Option Node) → is_right (some (is_some o)) o ≡ true
is_right_self none = refl
is_right_self (some n) = refl

presence_Safe :
    (temporary q : Text) (before : Option Node) (item : StagedFile) (s : State)
    → IsUntouched s.transaction
    → Safe temporary q before s
    → Safe temporary q before (record_presence item s)
presence_Safe temporary q before item s u safe =
    let p = item.destination_text in
    let there = untouched_disk temporary q before s u safe in
    let table = s.transaction.destination_presence in
    let b = is_some (s.disk p) in
    record {
      at_temporary = safe.at_temporary;
      numbered = safe.numbered;
      apart = safe.apart;
      kept = safe.kept;
      stored = safe.stored;
      listed = elim (Bool-cases (q =? p)) [
        | inl at ↦
            let same : s.disk p ≡ before = ap s.disk (sym ((=?_iff q p).0 at)) ∙ there in
            rw (lookup-insert p q b table, at, same) (is_right_self before)
        | inr other ↦ rw (lookup-insert p q b table, other) safe.listed
      ];
    }

module _ (normalized dirname : Text → Text) (cross_device : Text → Text → Bool) (umask : ℕ)
    (fault : ℕ → Option ℕ) (temporary q : Text) (before : Option Node) where
  abbrev pub Kept : State → State → Type 0
  Kept s s' = SameStaging s.transaction s'.transaction

  validate_item_lem :
      (item : StagedFile) (s : State)
      → Safe temporary q before s
      → IsUntouched s.transaction
      → Ensures
          (Safe temporary q before)
          (Kept s)
          (validate_item normalized dirname cross_device umask fault item s)
  validate_item_lem item s safe u = elim (Bool-cases (lacks_source item.payload s.disk)) [
    | inl missing ↦ rw (missing, Ensures) safe
    | inr there ↦ rw there (
        continue-Ensures (Safe temporary q before) (λ s'. s'.transaction ≡ s.transaction) (Kept s)
          (attempt normalized dirname cross_device umask fault nothing_left (λ d. d) s) _
          (attempt-Ensures normalized dirname cross_device umask fault temporary q before
            (Safe temporary q before) (λ s'. s'.transaction ≡ s.transaction) nothing_left (λ d. d) s
            (changed_disk temporary q before s safe s.disk (s.calls + 1) (λ b u. refl) (λ c. refl))
            refl
            (λ k fails.
              changed_disk temporary q before s safe s.disk (s.calls + 1) (λ b u. refl)
                (λ c. refl)))
          (λ s' safe' same. checked s' safe' same))
  ]
    where
      checked :
          (s' : State)
          → Safe temporary q before s'
          → s'.transaction ≡ s.transaction
          → Ensures (Safe temporary q before) (Kept s) (
              if is_unrelated normalized dirname cross_device umask fault s'.transaction item
                (source_contents item.payload s'.disk)
                (s'.disk item.destination_text)
              then raised unrelated_file (record_presence item s')
              else returned (record_presence item s'))
      checked s' safe' same =
          let u' : IsUntouched s'.transaction = record {
            backups = ap (λ t. t.backups) same ∙ u.backups;
            created = ap (λ t. t.created_internal) same ∙ u.created;
          } in
          let after = presence_Safe temporary q before item s' u' safe' in
          elim (Bool-cases (
            is_unrelated normalized dirname cross_device umask fault s'.transaction item
              (source_contents item.payload s'.disk) (s'.disk item.destination_text))) [
                | inl e ↦ rw (e, Ensures) after
                | inr e ↦
                    rw (e, Ensures)
                      (
                        after,
                        record {
                          items = ap (λ t. t.staged_internal) same;
                          destinations = ap (λ t. t.staged_destinations) same;
                          deletions = ap (λ t. t.deletions) same;
                          untouched = record { backups = u'.backups; created = u'.created };
                        },
                      )
              ]

  trans_same :
      (t t' t'' : InstallTransaction) → SameStaging t t' → SameStaging t' t'' → SameStaging t t''
  trans_same t t' t'' a b = record {
    items = b.items ∙ a.items;
    destinations = b.destinations ∙ a.destinations;
    deletions = b.deletions ∙ a.deletions;
    untouched = b.untouched;
  }

  validate_items_lem :
      (items : List StagedFile) (s : State)
      → Safe temporary q before s
      → IsUntouched s.transaction
      → Ensures
          (Safe temporary q before)
          (Kept s)
          (validate_items normalized dirname cross_device umask fault items s)
  unfolding validate_items
  validate_items_lem [] s safe u =
      (safe, record { items = refl; destinations = refl; deletions = refl; untouched = u })
  validate_items_lem (item ∷ items) s safe u =
      continue-Ensures (Safe temporary q before) (Kept s) (Kept s)
        (validate_item normalized dirname cross_device umask fault item s)
        (validate_items normalized dirname cross_device umask fault items)
        (validate_item_lem item s safe u)
        (λ s' safe' same.
          Ensures-weaken (Safe temporary q before) (Kept s') (Kept s)
            (validate_items normalized dirname cross_device umask fault items s')
            (validate_items_lem items s' safe' same.untouched)
            (λ s'' later. trans_same s.transaction s'.transaction s''.transaction same later))

  -- Behind `validate` the orders are the same, and no destination is deleted as well.
  abbrev pub IsValidated : State → State → Type 0
  IsValidated s s' = Kept s s' × (overlaps s'.transaction ≡ false)

  pub validate_lem :
      (s : State)
      → Safe temporary q before s
      → IsUntouched s.transaction
      → Ensures
          (Safe temporary q before)
          (IsValidated s)
          (validate normalized dirname cross_device umask fault s)
  unfolding validate
  validate_lem s safe u =
      continue-Ensures (Safe temporary q before) (Kept s) (IsValidated s)
        (validate_items normalized dirname cross_device umask fault s.transaction.staged_internal s)
        _ (validate_items_lem s.transaction.staged_internal s safe u)
        (λ s' safe' same. elim (Bool-cases (overlaps s'.transaction)) [
          | inl e ↦ rw (e, Ensures) safe'
          | inr e ↦ rw (e, Ensures) (safe', (same, e))
        ])

-- ===== src/Transaction/Installed.antt =====
-- The loops of `commit` keep a path safe.
use core_pip.Prelude.{
  ℕ, ◌+◌, ◌≡◌, ◌∙◌, ap, refl, ◌⊎◌, inl, inr, Bool, true, false, ◌&&◌, ◌||◌, Option, List, [], ◌∷◌,
  map, Text, text_ord, ◌=?◌, =?_iff, Bool-cases, arith,
}
use core_pip.Controls.{TextSet, has, add}
use core_pip.Transaction.FileSystem.{Node}
use core_pip.Transaction.Staging.{StagedFile}
use core_pip.Transaction.Rollback.{State, Run, continue, is_under}
use core_pip.Transaction.Commit.{
  nothing_left, make_parent, backup_if_needed, place, install_items, delete_all,
}
use core_pip.Transaction.Recovered.{AreOutside}
use core_pip.Transaction.Safe.{Safe, changed_disk, Ensures, continue-Ensures, Ensures-weaken}
use core_pip.Transaction.Backups.{BackedUp, backup_if_needed_lem}
use core_pip.Transaction.Placing.{
  IsElsewhere, is_copied, LeavesNothing, IsPlaced, attempt-Ensures, place_lem,
}

abbrev pub destinations : List StagedFile → List Text
destinations items = map (λ i. i.destination_text) items

abbrev pub AreDistinct : List Text → Type 0
AreDistinct [] = Unit {0}
AreDistinct (p ∷ l) = (has p l ≡ false) × AreDistinct l

-- The staged files are put outside the temporary directory; what is moved comes from elsewhere, and
-- either nothing is copied or a call that raises has done nothing.
abbrev pub AreApart : (Text → Text → Bool) → (ℕ → Option ℕ) → Text → Text → List StagedFile → Type 0
AreApart cross_device fault temporary q [] = Unit {0}
AreApart cross_device fault temporary q (i ∷ items) =
    (is_under temporary i.destination_text ≡ false)
    × IsElsewhere temporary q i.payload
    × ((is_copied cross_device i.payload i.destination_text ≡ false) ⊎ LeavesNothing fault)
    × AreApart cross_device fault temporary q items

has_distinct : (p q : Text) (l : List Text) → has p l ≡ false → (q =? p) ≡ true → has q l ≡ false
has_distinct p q l h at = let same : q ≡ p = (=?_iff q p).0 at in rw same h

pub has_cons : (q p : Text) (l : List Text) → has q (p ∷ l) ≡ (q =? p || has q l)
unfolding has
has_cons q p l = refl

module _ (normalized dirname : Text → Text) (cross_device : Text → Text → Bool) (umask : ℕ)
    (fault : ℕ → Option ℕ) (temporary q : Text) (before : Option Node)
    (outside : is_under temporary q ≡ false) where
  make_parent_lem :
      (directories : TextSet) (p : Text) (s : State)
      → Safe temporary q before s
      → Ensures
          (Safe temporary q before)
          (λ s'. s'.transaction ≡ s.transaction)
          (make_parent normalized dirname cross_device umask fault directories p s)
  make_parent_lem directories p s safe = elim (Bool-cases (has (dirname p) directories)) [
    | inl made ↦ rw (made, Ensures) (safe, refl)
    | inr missing ↦
        let same =
          changed_disk temporary q before s safe s.disk (s.calls + 1) (λ b u. refl) (λ c. refl) in
        rw missing (
          attempt-Ensures normalized dirname cross_device umask fault temporary q before
            (Safe temporary q before) (λ s'. s'.transaction ≡ s.transaction) nothing_left (λ d. d) s
            same refl (λ k fails. same))
  ]

  -- Behind the loop the destinations are recorded, and the deletions as they were.
  pub record IsInstalled (items : List StagedFile) (s s' : State) : Type 0 where
    pub deletions : s'.transaction.deletions ≡ s.transaction.deletions
    pub created :
        has q s'.transaction.created_internal
        ≡ (has q (destinations items) || has q s.transaction.created_internal)

  -- One staged file: the backup, the parent and the placing
  install_item_lem :
      (directories : TextSet) (item : StagedFile) (s : State)
      → Safe temporary q before s
      → is_under temporary item.destination_text ≡ false
      → IsElsewhere temporary q item.payload
      → (is_copied cross_device item.payload item.destination_text ≡ false) ⊎ LeavesNothing fault
      → (has q s.transaction.created_internal && q =? item.destination_text) ≡ false
      → (rest : State → Run) (R : State → Type 0)
      → ((s' : State)
          → Safe temporary q before s'
          → s'.transaction.deletions ≡ s.transaction.deletions
          → s'.transaction.created_internal ≡ item.destination_text ∷ s.transaction.created_internal
          → Ensures (Safe temporary q before) R (rest s'))
      → Ensures (Safe temporary q before) R (
          continue
            (backup_if_needed normalized dirname cross_device umask fault item.destination_text s)
            λ s1.
              continue
                (make_parent normalized dirname cross_device umask fault directories
                  item.destination_text s1)
                λ s2.
                  continue
                    (place normalized dirname cross_device umask fault item.payload
                      item.destination_text item.mode s2)
                    rest)
  install_item_lem directories item s safe p_out elsewhere whole fresh rest R next =
      let p = item.destination_text in
      let good = Safe temporary q before in
      continue-Ensures good
        (BackedUp temporary q before outside normalized dirname cross_device umask fault p s) R
        (backup_if_needed normalized dirname cross_device umask fault p s) _
        (backup_if_needed_lem temporary q before outside normalized dirname cross_device umask fault
          p s safe p_out fresh)
        λ s1 safe1 (orders, guard).
          continue-Ensures good (λ s'. s'.transaction ≡ s1.transaction) R
            (make_parent normalized dirname cross_device umask fault directories p s1) _
            (make_parent_lem directories p s1 safe1)
            λ s2 safe2 same.
              continue-Ensures good
                (IsPlaced normalized dirname cross_device umask fault temporary q before p s2) R
                (place normalized dirname cross_device umask fault item.payload p item.mode s2) rest
                (place_lem normalized dirname cross_device umask fault temporary q before
                  item.payload p item.mode s2 safe2 p_out (λ at. rw same (guard at)) elsewhere
                  whole)
                λ s3 safe3 placed.
                  next s3 safe3
                    (ap (λ t. t.deletions) placed ∙ ap (λ t. t.deletions) same ∙ orders.deletions)
                    (ap (λ t. t.created_internal) placed
                      ∙ ap (λ t. p ∷ t.created_internal) same
                      ∙ ap (λ l. p ∷ l) orders.created)

  pub install_items_lem :
      (items : List StagedFile) (directories : TextSet) (s : State)
      → Safe temporary q before s
      → AreApart cross_device fault temporary q items
      → AreDistinct (destinations items)
      → (has q (destinations items) && has q s.transaction.created_internal) ≡ false
      → Ensures
          (Safe temporary q before)
          (IsInstalled items s)
          (install_items normalized dirname cross_device umask fault directories items s)
  unfolding install_items
  install_items_lem [] directories s safe apart distinct fresh =
      (safe, record { deletions = refl; created = unfold has in refl })
  install_items_lem (item ∷ items) directories s safe (p_out, elsewhere, whole, apart)
        (new, distinct) fresh =
      let p = item.destination_text in
      let old = s.transaction.created_internal in
      install_item_lem directories item s safe p_out elsewhere whole
        (ground (arith, fresh, has_cons q p (destinations items)))
        (install_items normalized dirname cross_device umask fault (add (dirname p) directories)
          items)
        (IsInstalled (item ∷ items) s)
        (λ s' safe' deletions created.
          let now : has q s'.transaction.created_internal ≡ (q =? p || has q old) =
            ap (has q) created ∙ has_cons q p old in
          Ensures-weaken (Safe temporary q before) (IsInstalled items s')
            (IsInstalled (item ∷ items) s) _
            (install_items_lem items (add (dirname p) directories) s' safe' apart distinct (
              ground (
                arith,
                fresh,
                now,
                has_cons q p (destinations items),
                has_distinct p q (destinations items) new,
              )))
            (λ s'' i. record {
              deletions = i.deletions ∙ deletions;
              created = ground (arith, i.created, now, has_cons q p (destinations items));
            }))

  pub delete_all_lem :
      (paths : List Text) (s : State)
      → Safe temporary q before s
      → AreOutside temporary paths
      → (has q paths && has q s.transaction.created_internal) ≡ false
      → Ensures
          (Safe temporary q before)
          (λ s'. Unit {0})
          (delete_all normalized dirname cross_device umask fault paths s)
  unfolding delete_all
  delete_all_lem [] s safe out fresh = (safe, tt)
  delete_all_lem (p ∷ paths) s safe out fresh =
      continue-Ensures (Safe temporary q before)
        (BackedUp temporary q before outside normalized dirname cross_device umask fault p s)
        (λ s'. Unit {0}) (backup_if_needed normalized dirname cross_device umask fault p s) _
        (backup_if_needed_lem temporary q before outside normalized dirname cross_device umask fault
          p s safe (ground (arith, out)) (ground (arith, fresh, has_cons q p paths)))
        (λ s1 safe1 (orders, guard).
          delete_all_lem paths s1 safe1 (ground (arith, out))
            (rw orders.created (ground (arith, fresh, has_cons q p paths))))

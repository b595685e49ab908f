-- ===== src/Transaction/Finished.antt =====
-- What stands at a path behind a commit that returns.
use core_pip.Prelude.{
  ℕ, ◌+◌, ◌≡◌, ◌∙◌, ap, sym, refl, subst, Bool, true, false, Option, none, List, [], ◌∷◌, Text,
  text_ord, ◌=?◌, =?_iff, some_of, is_some, Bool-cases, inl, inr, if◌then◌else◌, arith,
}
use core_pip.Caches.{lookup-insert}
use core_pip.Controls.{TextSet, has, add}
use core_pip.Hashes.{sorted, has-sorted}
use core_pip.Transaction.FileSystem.{Node}
use core_pip.Transaction.Staging.{StagedFile, InstallTransaction}
use core_pip.Transaction.Rollback.{State, is_under, finish_successfully}
use core_pip.Transaction.Commit.{
  nothing_left, lacks_source, source_contents, record_presence, is_unrelated, validate_item,
  validate_items, validate, overlaps, attempt, backup_if_needed, make_parent, place, install_items,
  delete_all, commit_body,
}
use core_pip.Transaction.Safe.{Leaves}
use core_pip.Transaction.Installed.{destinations, has_cons}
use core_pip.Transaction.Staged.{IsStaged}
use core_pip.Transaction.Validated.{is_right_self}
use core_pip.Transaction.Ready.{none_deleted}
use core_pip.Transaction.Outcome.{
  Returns, Returns-continue, Returns-weaken, HasOrders, Holds, attempt-Returns, backup_elsewhere,
  backup_here, HoldsAny, backup_any,
}
use core_pip.Transaction.Placed.{AreSettled, put_node, installed_at, place-Holds}

module _ (normalized dirname : Text → Text) (cross_device : Text → Text → Bool) (umask : ℕ)
    (fault : ℕ → Option ℕ) (t0 : InstallTransaction) (q : Text) (before : Option Node)
    (outside : is_under t0.temporary_internal q ≡ false) where
  calls_hold :
      (o : Option Node) (n : ℕ) (s : State)
      → Holds t0 q before o s
      → Holds t0 q before o (record s { calls = n })
  calls_hold o n s h = record { orders = h.orders; there = h.there; listed = h.listed }

  parent-Returns :
      (R : State → Type 0) (directories : TextSet) (p : Text) (s : State)
      → R s
      → R (record s { calls = s.calls + 1 })
      → Returns R (make_parent normalized dirname cross_device umask fault directories p s)
  parent-Returns R directories p s r r' = elim (Bool-cases (has (dirname p) directories)) [
    | inl made ↦ rw (made, Leaves) r
    | inr missing ↦
        rw missing
          (attempt-Returns normalized dirname cross_device umask fault R nothing_left (λ d. d) s r')
  ]

  presence-Holds :
      (item : StagedFile) (s : State)
      → Holds t0 q before before s
      → Holds t0 q before before (record_presence item s)
  presence-Holds item s h =
      let p = item.destination_text in
      let table = s.transaction.destination_presence in
      let b = is_some (s.disk p) in
      record {
        orders = record {
          temporary = h.orders.temporary;
          items = h.orders.items;
          destinations = h.orders.destinations;
          deletions = h.orders.deletions;
        };
        there = h.there;
        listed = elim (Bool-cases (q =? p)) [
          | inl at ↦
              let same : s.disk p ≡ before = ap s.disk (sym ((=?_iff q p).0 at)) ∙ h.there in
              rw (lookup-insert p q b table, at, same) (is_right_self before)
          | inr other ↦ rw (lookup-insert p q b table, other) h.listed
        ];
      }

  validate_item-Holds :
      (item : StagedFile) (s : State)
      → Holds t0 q before before s
      → Returns
          (Holds t0 q before before)
          (validate_item normalized dirname cross_device umask fault item s)
  validate_item-Holds item s h = elim (Bool-cases (lacks_source item.payload s.disk)) [
    | inl missing ↦ rw (missing, Leaves) tt
    | inr found ↦ rw found (
        Returns-continue (Holds t0 q before before) (Holds t0 q before before)
          (attempt normalized dirname cross_device umask fault nothing_left (λ d. d) s) _
          (attempt-Returns normalized dirname cross_device umask fault (Holds t0 q before before)
            nothing_left (λ d. d) s (calls_hold before (s.calls + 1) s h))
          (λ s' h'.
            elim (Bool-cases (
              is_unrelated normalized dirname cross_device umask fault s'.transaction item
                (source_contents item.payload s'.disk) (s'.disk item.destination_text))) [
                  | inl e ↦ rw (e, Leaves) tt
                  | inr e ↦ rw (e, Leaves) (presence-Holds item s' h')
                ]))
  ]

  validate_items_hold :
      (items : List StagedFile) (s : State)
      → Holds t0 q before before s
      → Returns
          (Holds t0 q before before)
          (validate_items normalized dirname cross_device umask fault items s)
  unfolding validate_items
  validate_items_hold [] s h = h
  validate_items_hold (item ∷ items) s h =
      Returns-continue (Holds t0 q before before) (Holds t0 q before before)
        (validate_item normalized dirname cross_device umask fault item s)
        (validate_items normalized dirname cross_device umask fault items)
        (validate_item-Holds item s h) (validate_items_hold items)

  -- Behind `validate` nothing has changed, and no destination is deleted as well.
  abbrev IsChecked : State → Type 0
  IsChecked s = Holds t0 q before before s × (overlaps s.transaction ≡ false)

  validate-Holds :
      (s : State)
      → Holds t0 q before before s
      → Returns IsChecked (validate normalized dirname cross_device umask fault s)
  unfolding validate
  validate-Holds s h =
      Returns-continue (Holds t0 q before before) IsChecked
        (validate_items normalized dirname cross_device umask fault s.transaction.staged_internal s)
        _ (validate_items_hold s.transaction.staged_internal s h)
        (λ s' h'. elim (Bool-cases (overlaps s'.transaction)) [
          | inl e ↦ rw (e, Leaves) tt
          | inr e ↦ rw (e, Leaves) (h', e)
        ])

  install_items_hold :
      (items : List StagedFile) (directories : TextSet) (o : Option Node) (s : State)
      → Holds t0 q before o s
      → AreSettled q items
      → Returns
          (Holds t0 q before (installed_at normalized dirname cross_device umask fault q items o))
          (install_items normalized dirname cross_device umask fault directories items s)
  unfolding install_items
  install_items_hold [] directories o s h settled = h
  install_items_hold (i ∷ items) directories o s h (here, settled) =
      let p = i.destination_text in
      let final =
        Holds t0 q before
          (installed_at normalized dirname cross_device umask fault q (i ∷ items) o) in
      let among = HoldsAny normalized dirname cross_device umask fault t0 q before outside in
      let between : State → Type 0 = λ s'. among s' × ((q =? p) ≡ false → Holds t0 q before o s') in
      let o1 =
        if q =? p
        then put_node normalized dirname cross_device umask fault i.payload i.mode o
        else o in
      Returns-continue between final
        (backup_if_needed normalized dirname cross_device umask fault p s) _
        (elim (Bool-cases (q =? p)) [
          | inl at ↦
              Returns-weaken among between
                (backup_if_needed normalized dirname cross_device umask fault p s)
                (backup_any normalized dirname cross_device umask fault t0 q before outside p o s h)
                (λ s' any. (any, λ other. cc))
          | inr other ↦
              Returns-weaken (Holds t0 q before o) between
                (backup_if_needed normalized dirname cross_device umask fault p s)
                (backup_elsewhere normalized dirname cross_device umask fault t0 q before outside p
                  o s h (λ at. cc))
                (λ s' h'. ((o, h'), λ other. h'))
        ])
        λ s1 (any1, same1).
          Returns-continue between final
            (make_parent normalized dirname cross_device umask fault directories p s1) _
            (parent-Returns between directories p s1 (any1, same1)
              (
                (any1.0, calls_hold any1.0 (s1.calls + 1) s1 any1.1),
                λ other. calls_hold o (s1.calls + 1) s1 (same1 other),
              ))
            λ s2 (any2, same2).
              Returns-continue (Holds t0 q before o1) final
                (place normalized dirname cross_device umask fault i.payload p i.mode s2) _
                (place-Holds normalized dirname cross_device umask fault t0 q before outside i o s2
                  here any2 same2)
                (λ s3 h3. install_items_hold items (add (dirname p) directories) o1 s3 h3 settled)

  -- The deletions of other paths, and those of a path that is gone
  delete_others_hold :
      (paths : List Text) (o : Option Node) (s : State)
      → Holds t0 q before o s
      → (has q paths ≡ true → o ≡ none)
      → Returns
          (Holds t0 q before o)
          (delete_all normalized dirname cross_device umask fault paths s)
  unfolding delete_all has
  delete_others_hold [] o s h gone = h
  delete_others_hold (p ∷ paths) o s h gone =
      Returns-continue (Holds t0 q before o) (Holds t0 q before o)
        (backup_if_needed normalized dirname cross_device umask fault p s)
        (delete_all normalized dirname cross_device umask fault paths)
        (backup_elsewhere normalized dirname cross_device umask fault t0 q before outside p o s h
          (λ at. gone (rw at)))
        (λ s' h'. delete_others_hold paths o s' h' (λ e. gone (ground (arith, e))))

  delete_here-Holds :
      (paths : List Text) (s : State)
      → Holds t0 q before before s
      → has q paths ≡ true
      → Returns
          (Holds t0 q before none)
          (delete_all normalized dirname cross_device umask fault paths s)
  unfolding delete_all has
  delete_here-Holds [] s h e = cc
  delete_here-Holds (p ∷ paths) s h e = elim (Bool-cases (q =? p)) [
    | inl at ↦
        Returns-continue (Holds t0 q before none) (Holds t0 q before none)
          (backup_if_needed normalized dirname cross_device umask fault p s)
          (delete_all normalized dirname cross_device umask fault paths)
          (backup_here normalized dirname cross_device umask fault t0 q before outside p s h at)
          (λ s' h'. delete_others_hold paths none s' h' (λ e. refl))
    | inr other ↦
        Returns-continue (Holds t0 q before before) (Holds t0 q before none)
          (backup_if_needed normalized dirname cross_device umask fault p s)
          (delete_all normalized dirname cross_device umask fault paths)
          (backup_elsewhere normalized dirname cross_device umask fault t0 q before outside p before
            s h (λ at. cc))
          (λ s' h'. delete_here-Holds paths s' h' (ground (arith, e, other)))
  ]

  installed_elsewhere :
      (items : List StagedFile) (o : Option Node)
      → has q (destinations items) ≡ false
      → installed_at normalized dirname cross_device umask fault q items o ≡ o
  installed_elsewhere [] o new = refl
  installed_elsewhere (i ∷ items) o new =
      let other : (q =? i.destination_text) ≡ false =
        ground (arith, has_cons q i.destination_text (destinations items), new) in
      rw other (
        installed_elsewhere items o
          (ground (arith, has_cons q i.destination_text (destinations items), new)))

  -- What a commit makes of a path.
  abbrev pub outcome_at : Option Node
  outcome_at =
      if has q t0.deletions
      then none
      else installed_at normalized dirname cross_device umask fault q t0.staged_internal before

  delete_all-Holds :
      (paths : List Text) (s : State)
      → ((p : Text) → has p paths ≡ has p t0.deletions)
      → (has q t0.deletions ≡ true → has q (destinations t0.staged_internal) ≡ false)
      → Holds t0 q before
          (installed_at normalized dirname cross_device umask fault q t0.staged_internal before)
          s
      → Returns
          (Holds t0 q before outcome_at)
          (delete_all normalized dirname cross_device umask fault paths s)
  delete_all-Holds paths s same apart h = elim (Bool-cases (has q t0.deletions)) [
    | inl e ↦
        rw (e, Returns)
          (delete_here-Holds paths s
            (subst (λ o. Holds t0 q before o s)
              (installed_elsewhere t0.staged_internal before (apart e)) h)
            (same q ∙ e))
    | inr e ↦ rw (e) (delete_others_hold paths _ s h (λ e'. let clash = same q ∙ e in cc))
  ]

  finish-Holds :
      (o : Option Node) (finalize : Bool) (s : State)
      → Holds t0 q before o s
      → (if finalize then finish_successfully s else s).disk q ≡ o
  finish-Holds o false s h = h.there
  finish-Holds o true s h =
      let out : is_under s.transaction.temporary_internal q ≡ false =
        rw h.orders.temporary outside in
      rw out h.there

  -- Behind `validate`, what is deleted is not put as well.
  put_apart :
      (s : State)
      → IsStaged t0
      → HasOrders t0 s.transaction
      → overlaps s.transaction ≡ false
      → has q t0.deletions ≡ true
      → has q (destinations t0.staged_internal) ≡ false
  put_apart s staged orders once deleted =
      let apart : some_of (λ u. has u t0.deletions) t0.staged_destinations ≡ false =
        subst (λ (d : TextSet). some_of (λ u. has u d) t0.staged_destinations ≡ false)
          orders.deletions
          (subst (λ (l : TextSet). some_of (λ u. has u s.transaction.deletions) l ≡ false)
            orders.destinations once) in
      elim (Bool-cases (has q t0.staged_destinations)) [
        | inl e ↦
            let kept = none_deleted q t0.staged_destinations t0.deletions apart e in
            let clash : true ≡ false = sym deleted ∙ kept in cc
        | inr e ↦ sym (staged.agree q) ∙ e
      ]

  pub commit_body-Returns :
      (finalize : Bool) (s : State)
      → IsStaged t0
      → AreSettled q t0.staged_internal
      → Holds t0 q before before s
      → Returns
          (λ s'. s'.disk q ≡ outcome_at)
          (commit_body normalized dirname cross_device umask fault finalize s)
  unfolding commit_body
  commit_body-Returns finalize s staged settled h =
      let final : State → Type 0 = λ s'. s'.disk q ≡ outcome_at in
      let installed =
        installed_at normalized dirname cross_device umask fault q t0.staged_internal before in
      Returns-continue IsChecked final (validate normalized dirname cross_device umask fault s) _
        (validate-Holds s h)
        λ s1 (h1, once).
          Returns-continue (Holds t0 q before installed) final
            (install_items normalized dirname cross_device umask fault []
              s1.transaction.staged_internal s1)
            _
            (subst
              (λ (items : List StagedFile).
                Returns (Holds t0 q before installed)
                  (install_items normalized dirname cross_device umask fault [] items s1))
              (sym h1.orders.items) (install_items_hold t0.staged_internal [] before s1 h1 settled))
            λ s2 h2.
              Returns-continue (Holds t0 q before outcome_at) final
                (delete_all normalized dirname cross_device umask fault
                  (sorted s2.transaction.deletions) s2)
                _
                (delete_all-Holds (sorted s2.transaction.deletions) s2
                  (λ p. has-sorted p s2.transaction.deletions ∙ ap (has p) h2.orders.deletions)
                  (λ deleted. put_apart s1 staged h1.orders once deleted) h2)
                (λ s3 h3. finish-Holds outcome_at finalize s3 h3)

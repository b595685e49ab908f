-- ===== src/Transaction/Placed.antt =====
-- What the loop over the staged files makes of one path, where nothing raises.
use core_pip.Prelude.{
  ℕ, ◌+◌, ◌≡◌, ◌∙◌, ap, sym, refl, Bool, true, false, Option, none, some, List, [], ◌∷◌, Text,
  text_ord, ◌=?◌, =?_iff, nat_beq, nat_beq_iff, Bool-cases, inl, inr, if◌then◌else◌, arith,
}
use Prim.Native.Nat.{bit_and}
use core_pip.Transaction.FileSystem.{Bytes, Node, file, Disk, put, with_mode}
use core_pip.Transaction.Staging.{
  Payload, moved, cloned, written, StagedFile, InstallTransaction, record_created,
}
use core_pip.Transaction.Rollback.{State, is_under}
use core_pip.Transaction.Commit.{
  nothing_left, part_left, mode_or_default, put_source, chmod_if, masked, write_contents,
  is_stripped, place,
}
use core_pip.Transaction.Safe.{Leaves}
use core_pip.Transaction.Outcome.{
  Returns, Returns-continue, Holds, attempt-Returns, written_node, HoldsAny,
}

-- What is put at the path is written, and nothing is moved away from it.
abbrev pub Settles : Text → Text → Payload → Type 0
Settles q p (written contents) = Unit {0}
Settles q p (moved source) = ((q =? p) ≡ false) × ((q =? source) ≡ false)
Settles q p (cloned source) = (q =? p) ≡ false

abbrev pub AreSettled : Text → List StagedFile → Type 0
AreSettled q [] = Unit {0}
AreSettled q (i ∷ items) = Settles q i.destination_text i.payload × AreSettled q items

module _ (normalized dirname : Text → Text) (cross_device : Text → Text → Bool) (umask : ℕ)
    (fault : ℕ → Option ℕ) where
  abbrev pub put_node : Payload → Option ℕ → Option Node → Option Node
  put_node (written contents) mode o =
      written_node normalized dirname cross_device umask fault contents mode
  put_node (moved source) mode o = o
  put_node (cloned source) mode o = o

  -- What the staged files make of a path.
  abbrev pub installed_at : Text → List StagedFile → Option Node → Option Node
  installed_at q [] o = o
  installed_at q (i ∷ items) o =
      installed_at q items (if q =? i.destination_text then put_node i.payload i.mode o else o)

  module _ (t0 : InstallTransaction) (q : Text) (before : Option Node)
      (outside : is_under t0.temporary_internal q ≡ false) where
    -- A call that leaves the transaction as it is
    changed-Holds :
        (o o' : Option Node) (d : Disk) (n : ℕ) (s : State)
        → Holds t0 q before o s
        → d q ≡ o'
        → Holds t0 q before o' (record s { disk = d; calls = n })
    changed-Holds o o' d n s h e = record { orders = h.orders; there = e; listed = h.listed }

    recorded-Holds :
        (p : Text) (o : Option Node) (s : State)
        → Holds t0 q before o s
        → Holds t0 q before o (record s { transaction = record_created p s.transaction })
    recorded-Holds p o s h = record {
      orders = record {
        temporary = h.orders.temporary;
        items = h.orders.items;
        destinations = h.orders.destinations;
        deletions = h.orders.deletions;
      };
      there = h.there;
      listed = h.listed;
    }

    chmod_if-Holds :
        (needed : Bool) (p : Text) (mode : Option ℕ) (o : Option Node) (s : State)
        → Holds t0 q before o s
        → (q =? p) ≡ false
        → Returns
            (Holds t0 q before o)
            (chmod_if normalized dirname cross_device umask fault needed p mode s)
    chmod_if-Holds needed p none o s h other = h
    chmod_if-Holds false p (some mode) o s h other = h
    chmod_if-Holds true p (some mode) o s h other =
        attempt-Returns normalized dirname cross_device umask fault (Holds t0 q before o)
          nothing_left (λ d. put p (with_mode mode (d p)) d) s
          (changed-Holds o o (put p (with_mode mode (s.disk p)) s.disk) (s.calls + 1) s h
            (unfold put in ground (arith, other, h.there)))

    -- The mode behind the write and the `chmod` that it may need
    written_mode :
        (contents : Bytes) (mode : Option ℕ) (p : Text) (s : State)
        → (q =? p) ≡ true
        → Holds t0 q before
            (some (
              file contents
                (masked normalized dirname cross_device umask fault (mode_or_default mode))))
            s
        → Returns
            (Holds t0 q before
              (written_node normalized dirname cross_device umask fault contents mode))
            (chmod_if normalized dirname cross_device umask fault
              (is_stripped normalized dirname cross_device umask fault mode)
              p
              mode
              s)
    written_mode contents none p s at h = h
    written_mode contents (some mode) p s at h =
        let here : s.disk p
            ≡ some (file contents (masked normalized dirname cross_device umask fault mode)) =
          ap s.disk (sym ((=?_iff q p).0 at)) ∙ h.there in
        elim (Bool-cases (nat_beq (bit_and mode umask) 0)) [
          | inl clear ↦
              let none_set : bit_and mode umask ≡ 0 =
                (nat_beq_iff (bit_and mode umask) 0).0 clear in
              rw (clear, Leaves)
                (record {
                  orders = h.orders;
                  there = h.there ∙ ap (λ m. some (file contents m)) (omega arith);
                  listed = h.listed;
                })
          | inr stripped ↦ rw stripped (
              attempt-Returns normalized dirname cross_device umask fault
                (Holds t0 q before (some (file contents mode))) nothing_left
                (λ d. put p (with_mode mode (d p)) d) s
                (changed-Holds _ _ (put p (with_mode mode (s.disk p)) s.disk) (s.calls + 1) s h
                  (unfold put in rw (at, here) refl)))
        ]

    put_elsewhere :
        (payload : Payload) (p : Text) (n : Option Node) (o : Option Node) (s : State)
        → (q =? p) ≡ false
        → Settles q p payload
        → Holds t0 q before o s
        → Returns
            (Holds t0 q before o)
            (put_source normalized dirname cross_device umask fault payload p n s)
    put_elsewhere payload p none o s other settled h = tt
    put_elsewhere (written contents) p (some n) o s other settled h = h
    put_elsewhere (moved source) p (some n) o s other (apart, kept) h =
        attempt-Returns normalized dirname cross_device umask fault (Holds t0 q before o)
          (λ k d. if cross_device source p then part_left p n k d else d)
          (λ d. put p (some n) (put source none d)) s
          (changed-Holds o o (put p (some n) (put source none s.disk)) (s.calls + 1) s h
            (unfold put in ground (arith, other, kept, h.there)))
    put_elsewhere (cloned source) p (some n) o s other apart h =
        attempt-Returns normalized dirname cross_device umask fault (Holds t0 q before o)
          (part_left p n) (λ d. put p (some n) d) s
          (changed-Holds o o (put p (some n) s.disk) (s.calls + 1) s h
            (unfold put in ground (arith, other, h.there)))

    -- `_write_contents` behind the record of the path
    contents_return :
        (contents : Bytes) (mode : ℕ) (p : Text) (o o' : Option Node) (s : State)
        → Holds t0 q before o s
        → put p
            (some (file contents (masked normalized dirname cross_device umask fault mode)))
            s.disk
            q
          ≡ o'
        → Returns (Holds t0 q before o') (
            write_contents normalized dirname cross_device umask fault p contents mode
              (record s { transaction = record_created p s.transaction }))
    contents_return contents mode p o o' s h e =
        let node = file contents (masked normalized dirname cross_device umask fault mode) in
        let s1 : State = record s { transaction = record_created p s.transaction } in
        attempt-Returns normalized dirname cross_device umask fault (Holds t0 q before o')
          (part_left p node) (λ d. put p (some node) d) s1
          (changed-Holds o o' (put p (some node) s.disk) (s.calls + 1) s1 (recorded-Holds p o s h)
            e)

    write_here :
        (contents : Bytes) (mode : Option ℕ) (p : Text) (s : State)
        → (q =? p) ≡ true
        → HoldsAny normalized dirname cross_device umask fault t0 q before outside s
        → Returns
            (Holds t0 q before
              (written_node normalized dirname cross_device umask fault contents mode))
            (place normalized dirname cross_device umask fault (written contents) p mode s)
    unfolding place
    write_here contents mode p s at (o, h) =
        let m = mode_or_default mode in
        let node : Option Node =
          some (file contents (masked normalized dirname cross_device umask fault m)) in
        Returns-continue (Holds t0 q before node)
          (Holds t0 q before
            (written_node normalized dirname cross_device umask fault contents mode))
          (write_contents normalized dirname cross_device umask fault p contents m
            (record s { transaction = record_created p s.transaction }))
          (chmod_if normalized dirname cross_device umask fault
            (is_stripped normalized dirname cross_device umask fault mode) p mode)
          (contents_return contents m p o node s h (unfold put in rw at))
          (λ s2 h2. written_mode contents mode p s2 at h2)

    place_elsewhere :
        (payload : Payload) (mode : Option ℕ) (p : Text) (o : Option Node) (s : State)
        → (q =? p) ≡ false
        → Settles q p payload
        → Holds t0 q before o s
        → Returns
            (Holds t0 q before o)
            (place normalized dirname cross_device umask fault payload p mode s)
    unfolding place
    place_elsewhere (written contents) mode p o s other settled h =
        Returns-continue (Holds t0 q before o) (Holds t0 q before o)
          (write_contents normalized dirname cross_device umask fault p contents
            (mode_or_default mode) (record s { transaction = record_created p s.transaction }))
          (chmod_if normalized dirname cross_device umask fault
            (is_stripped normalized dirname cross_device umask fault mode) p mode)
          (contents_return contents (mode_or_default mode) p o o s h
            (unfold put in rw other h.there))
          (λ s2 h2. chmod_if-Holds _ p mode o s2 h2 other)
    place_elsewhere (moved source) mode p o s other (apart, kept) h =
        Returns-continue (Holds t0 q before o) (Holds t0 q before o)
          (put_source normalized dirname cross_device umask fault (moved source) p (s.disk source)
            s)
          _ (put_elsewhere (moved source) p (s.disk source) o s other (apart, kept) h)
          (λ s2 h2. chmod_if-Holds true p mode o _ (recorded-Holds p o s2 h2) other)
    place_elsewhere (cloned source) mode p o s other apart h =
        Returns-continue (Holds t0 q before o) (Holds t0 q before o)
          (put_source normalized dirname cross_device umask fault (cloned source) p (s.disk source)
            s)
          _ (put_elsewhere (cloned source) p (s.disk source) o s other apart h)
          (λ s2 h2. chmod_if-Holds true p mode o _ (recorded-Holds p o s2 h2) other)

    -- One staged file: what it puts, and nothing at any other path
    pub place-Holds :
        (i : StagedFile) (o : Option Node) (s : State)
        → Settles q i.destination_text i.payload
        → HoldsAny normalized dirname cross_device umask fault t0 q before outside s
        → ((q =? i.destination_text) ≡ false → Holds t0 q before o s)
        → Returns
            (Holds t0 q before (if q =? i.destination_text then put_node i.payload i.mode o else o))
            (place normalized dirname cross_device umask fault i.payload i.destination_text i.mode
              s)
    place-Holds i o s settled any h = elim (Bool-cases (q =? i.destination_text)) [
      | inl at ↦ put_here i.payload settled at
      | inr other ↦
          rw other (place_elsewhere i.payload i.mode i.destination_text o s other settled (h other))
    ]
      where
        put_here :
            (payload : Payload)
            → Settles q i.destination_text payload
            → (q =? i.destination_text) ≡ true
            → Returns
                (Holds t0 q before
                  (if q =? i.destination_text then put_node payload i.mode o else o))
                (place normalized dirname cross_device umask fault payload i.destination_text i.mode
                  s)
        put_here (written contents) settled at =
            rw at (write_here contents i.mode i.destination_text s at any)
        put_here (moved source) (apart, kept) at = cc
        put_here (cloned source) apart at = cc

-- ===== src/Transaction/Staged.antt =====
-- What the methods that stage keep of a transaction.
use mathlib.Core.List.{append_assoc, append-nil}
use core_pip.Prelude.{
  ◌≡◌, ◌∙◌, ap, sym, refl, true, false, ◌||◌, Option, none, some, List, [], ◌∷◌, ◌++◌, Text,
  text_ord, =?_iff, some_of, is_some, Result, ok, err, Bool-cases, inl, inr, arith,
}
use core_pip.Controls.{has, add, has-add, has-nil}
use core_pip.Transaction.Staging.{
  StagedFile, InstallTransaction, InstallError, duplicate_destination, stage, stage_all, adopt,
  adopt_deletions, update_set,
}
use core_pip.Transaction.Installed.{destinations, AreDistinct, has_cons}

-- What the methods that stage keep: the set and the list of destinations agree, and no destination
-- is staged twice.
pub record IsStaged (t : InstallTransaction) : Type 0 where
  pub distinct : AreDistinct (destinations t.staged_internal)
  pub agree : (p : Text) → has p t.staged_destinations ≡ has p (destinations t.staged_internal)

pub has-append : (p : Text) (l m : List Text) → has p (l ++ m) ≡ (has p l || has p m)
unfolding has
has-append p [] m = refl
has-append p (t ∷ l) m = ground (arith, has-append p l m)

destinations-append :
    (l m : List StagedFile) → destinations (l ++ m) ≡ destinations l ++ destinations m
destinations-append [] m = refl
destinations-append (i ∷ l) m = ap (λ t. i.destination_text ∷ t) (destinations-append l m)

distinct_snoc :
    (l : List Text) (p : Text) → AreDistinct l → has p l ≡ false → AreDistinct (l ++ (p ∷ []))
distinct_snoc [] p d new = (unfold has in refl, tt)
distinct_snoc (t ∷ l) p (first, d) new = (
  ground (
    arith,
    has-append t l (p ∷ []),
    has_cons t p [],
    has_cons p t l,
    =?_iff t p,
    =?_iff p t,
    new,
    first,
    has-nil t,
  ),
  distinct_snoc l p d (ground (arith, has_cons p t l, new)),
)

pub IsStaged-next :
    (item : StagedFile) (t : InstallTransaction)
    → IsStaged t
    → has item.destination_text t.staged_destinations ≡ false
    → IsStaged (record t {
      staged_internal = t.staged_internal ++ (item ∷ []);
      staged_destinations = add item.destination_text t.staged_destinations;
    })
IsStaged-next item t staged new = record {
  distinct = rw (destinations-append t.staged_internal (item ∷ [])) (
      distinct_snoc (destinations t.staged_internal) item.destination_text staged.distinct
        (sym (staged.agree item.destination_text) ∙ new));
  agree = λ p. ground (
    arith,
    has-add item.destination_text p t.staged_destinations,
    staged.agree p,
    destinations-append t.staged_internal (item ∷ []),
    has-append p (destinations t.staged_internal) (item.destination_text ∷ []),
    has_cons p item.destination_text [],
    has-nil p,
  );
}

-- What comes of staging a file.
abbrev pub IsStagedOr :
    StagedFile → InstallTransaction → Result InstallError InstallTransaction → Type 0
IsStagedOr item t (err e) =
    (e ≡ duplicate_destination)
    × (has item.destination_text (destinations t.staged_internal) ≡ true)
IsStagedOr item t (ok t') = (t'.staged_internal ≡ t.staged_internal ++ (item ∷ [])) × IsStaged t'

pub stage-IsStaged :
    (item : StagedFile) (t : InstallTransaction) → IsStaged t → IsStagedOr item t (stage item t)
unfolding stage
stage-IsStaged item t staged = elim (Bool-cases (has item.destination_text t.staged_destinations)) [
  | inl old ↦ rw (old, IsStagedOr) (refl, sym (staged.agree item.destination_text) ∙ old)
  | inr new ↦ rw (new, IsStagedOr) (refl, IsStaged-next item t staged new)
]

-- What comes of staging the files of another transaction.
pub record IsMerged (items : List StagedFile) (t : InstallTransaction)
    (r : InstallTransaction × Option InstallError) : Type 0 where
  pub staged : IsStaged r.0
  pub refused : is_some r.1 ≡ some_of (λ p. has p t.staged_destinations) (destinations items)
  pub whole : r.1 ≡ none → r.0.staged_internal ≡ t.staged_internal ++ items

some_of-add :
    (p : Text) (set l : List Text)
    → has p l ≡ false
    → some_of (λ u. has u (add p set)) l ≡ some_of (λ u. has u set) l
some_of-add p set [] new = refl
some_of-add p set (t ∷ l) new =
    ground
      (arith, some_of-add p set l, has-add p t set, has_cons p t l, new, =?_iff t p, =?_iff p t)

stage_all_lem :
    (items : List StagedFile) (t : InstallTransaction)
    → IsStaged t
    → AreDistinct (destinations items)
    → IsMerged items t (stage_all items t)
unfolding stage
stage_all_lem [] t staged d = record {
  staged = staged;
  refused = refl;
  whole = λ e. sym (append-nil t.staged_internal);
}
stage_all_lem (item ∷ items) t staged (new, d) =
    elim (Bool-cases (has item.destination_text t.staged_destinations)) [
      | inl old ↦
          rw (old, stage_all) (record { staged = staged; refused = rw old; whole = λ e. cc })
      | inr free ↦
          let rest = stage_all_lem items _ (IsStaged-next item t staged free) d in
          rw (free, stage_all)
            (record {
              staged = rest.staged;
              refused =
                  rest.refused
                  ∙ some_of-add item.destination_text t.staged_destinations (destinations items) new
                  ∙ sym (rw free);
              whole = λ e. rest.whole e ∙ append_assoc t.staged_internal (item ∷ []) items;
            })
    ]

-- Whatever two transactions were staged: adopting the second raises exactly if the first stages one
-- of its destinations already. Raised or not, no destination is staged twice afterwards, and the set
-- of destinations is that of the staged files. If it does not raise, the staged files of the second
-- stand behind those of the first, in order.
pub adopt-IsStaged :
    (t other : InstallTransaction)
    → IsStaged t
    → IsStaged other
    → IsMerged other.staged_internal t (adopt t other)
unfolding adopt
adopt-IsStaged t other staged theirs =
    let start = record t {
      owned = update_set t.owned other.owned;
      created_internal = other.created_internal ++ t.created_internal;
    } in
    let m =
      stage_all_lem other.staged_internal start
        (record { distinct = staged.distinct; agree = staged.agree }) theirs.distinct in
    deleted (stage_all other.staged_internal start)
      (record { staged = m.staged; refused = m.refused; whole = m.whole })
  where
    deleted :
        (r : InstallTransaction × Option InstallError)
        → IsMerged other.staged_internal t r
        → IsMerged other.staged_internal t (adopt_deletions other.deletions r)
    deleted (t', some e) m = m
    deleted (t', none) m = record {
      staged = record { distinct = m.staged.distinct; agree = m.staged.agree };
      refused = m.refused;
      whole = m.whole;
    }

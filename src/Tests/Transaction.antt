-- ===== src/Tests/Transaction.antt =====
-- A transaction that replaces, moves and deletes, and that is interrupted.
use core_pip.Prelude.{
  ℕ, ◌≡◌, refl, Bool, true, false, Option, none, some, [], ◌∷◌, ◌++◌, Text, codes, text_ord, ◌=?◌,
  =?_iff, nat_beq, inl, if◌then◌else◌, arith,
}
use core_pip.Caches.{lookup}
use core_pip.Version.Decimal.{str_of}
use core_pip.Controls.{has, add}
use core_pip.Transaction.{
  file, link, regular, Disk, put, moved, cloned, written, StagedFile, InstallTransaction, os_error,
  started, delete, adopt, State, Run, returned, raised, rollback, commit, IsStaged, IsStaged-next,
  IsMerged, adopt-IsStaged, IsReady, commit-Leaves, Leaves, outcome_at, Succeeds, IsSound,
  commit-Succeeds, commit-rollback, rollback-AreHidden, place-cut_short, place,
}

abbrev temporary : Text
temporary = codes "/tmp/stage"

abbrev replaced : Text
replaced = codes "/lib/a"

abbrev removed : Text
removed = codes "/lib/c"

abbrev before : Disk
before p =
    if p =? replaced
    then some (file (1 ∷ []) 420)
    else if p =? removed
    then some (link true (regular (3 ∷ [])))
    else if p =? codes "/wheel/b"
    then some (file (9 ∷ []) 420)
    else none

abbrev rewrite : StagedFile
rewrite = record { payload = written (2 ∷ 2 ∷ []); destination_text = replaced; mode = none }

abbrev install_b : StagedFile
install_b = record {
  payload = moved (codes "/wheel/b");
  destination_text = codes "/lib/b";
  mode = some 493;
}

abbrev empty : InstallTransaction
empty = started (replaced ∷ []) temporary

abbrev first : InstallTransaction
first = record empty {
  staged_internal = empty.staged_internal ++ (rewrite ∷ []);
  staged_destinations = add replaced empty.staged_destinations;
}

abbrev second : InstallTransaction
second = record first {
  staged_internal = first.staged_internal ++ (install_b ∷ []);
  staged_destinations = add (codes "/lib/b") first.staged_destinations;
}

empty-IsStaged : IsStaged empty
unfolding has
empty-IsStaged = record { distinct = tt; agree = λ p. refl }

first-IsStaged : IsStaged first
unfolding has
first-IsStaged = IsStaged-next rewrite empty empty-IsStaged refl

second-IsStaged : IsStaged second
unfolding has add
second-IsStaged = IsStaged-next install_b first first-IsStaged refl

abbrev start : State
start = record { disk = before; transaction = delete removed second; calls = 0 }

start-IsReady : IsReady start.transaction
unfolding add has
start-IsReady = record {
  staged = record { distinct = second-IsStaged.distinct; agree = second-IsStaged.agree };
  untouched = record { backups = refl; created = refl };
  unlisted = refl;
  deletions_outside = refl;
}

abbrev same_text : Text → Text
same_text p = p

abbrev parent : Text → Text
parent p = codes "/lib"

abbrev one_device : Text → Text → Bool
one_device a b = false

-- The deletion raises.
abbrev late : ℕ → Option ℕ
late n = if nat_beq n 7 then some 0 else none

abbrev state_of : Run → State
state_of (returned s) = s
state_of (raised e s) = s

abbrev late_run : Run
unfolding commit
late_run = commit same_text parent one_device 18 late true start

commit-Leaves_example :
    Leaves
      (λ s'. s'.disk replaced ≡ before replaced)
      (λ s'.
        s'.disk replaced
        ≡ outcome_at same_text parent one_device 18 late start.transaction replaced
            (before replaced)
            refl)
      (commit same_text parent one_device 18 late true start)
commit-Leaves_example =
    commit-Leaves same_text parent one_device 18 late replaced true start refl start-IsReady
      (refl, tt, inl refl, (refl, (refl, refl), inl refl, tt)) refl (tt, ((refl, refl), tt))

abbrev calm : ℕ → Option ℕ
calm n = none

start-IsSound : IsSound same_text parent one_device 18 calm (λ n. refl) start
unfolding has add
start-IsSound = record {
  going = refl;
  unlisted = refl;
  staged = start-IsReady.staged;
  once = refl;
  allowed = ((refl, refl), ((refl, refl), tt));
  free = (refl, λ q h. cc, (refl, λ q h. (refl, refl), tt));
  supplied = λ p h.
      let same : p ≡ codes "/wheel/b" = (=?_iff p (codes "/wheel/b")).0 (ground (arith, h)) in
      rw same refl;
}

commit-Succeeds_example :
    Succeeds
      (λ s'.
        s'.disk removed
        ≡ outcome_at same_text parent one_device 18 calm start.transaction removed
            (before removed)
            refl)
      (commit same_text parent one_device 18 calm true start)
commit-Succeeds_example =
    commit-Succeeds same_text parent one_device 18 calm (λ n. refl) true start removed refl
      start-IsSound (tt, ((refl, refl), tt))

-- A transaction that stays open
abbrev calm_run : Run
unfolding commit
calm_run = commit same_text parent one_device 18 calm false start

commit-rollback_example : (rollback (state_of calm_run)).disk replaced ≡ before replaced
unfolding calm_run has add lookup core_pip.Caches.insert put
commit-rollback_example =
    commit-rollback same_text parent one_device 18 calm replaced start (state_of calm_run)
      start-IsReady refl (refl, tt, inl refl, (refl, (refl, refl), inl refl, tt)) refl refl

-- The relative link that was deleted is lost.
rollback-AreHidden_example : (rollback (state_of calm_run)).disk removed ≡ none
unfolding calm_run has add lookup core_pip.Caches.insert put str_of
rollback-AreHidden_example =
    rollback-AreHidden removed (state_of calm_run) refl (refl, refl, (refl, refl, tt)) refl
      (refl, (refl, tt))

-- The first call breaks off behind one byte of two.
abbrev breaks : ℕ → Option ℕ
breaks n = some 2

abbrev cached : State
cached = record {
  disk = λ p. if p =? codes "/cache/d" then some (file (5 ∷ 6 ∷ []) 420) else none;
  transaction = empty;
  calls = 0;
}

place-cut_short_example :
    (s' : State) × (place same_text parent one_device 18 breaks
        (cloned (codes "/cache/d"))
        (codes "/lib/d")
        none
        cached
      ≡ raised os_error s')
    × ((rollback s').disk (codes "/lib/d") ≡ some (file (5 ∷ []) 420))
unfolding has
place-cut_short_example =
    place-cut_short same_text parent one_device 18 breaks (codes "/cache/d") (codes "/lib/d") none
      cached (file (5 ∷ 6 ∷ []) 420) 1 refl refl refl tt refl refl tt

-- Two transactions of one batch
adopt-IsStaged_example : IsMerged second.staged_internal empty (adopt empty second)
adopt-IsStaged_example = adopt-IsStaged empty second empty-IsStaged second-IsStaged

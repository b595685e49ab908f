-- ===== src/Candidates/Evaluate.antt =====
-- `evaluate_parsed_link` of `CandidateEvaluator`, the policy for one link. The text of a rejection
-- is left out.
pub mod Accepted
use core_pip.Prelude.{
  ℕ, Bool, true, false, not, ◌&&◌, ◌||◌, Option, none, some, List, [], ◌∷◌, Text, text_ord, ◌=?◌,
  is_nil, is_some, if◌then◌else◌, Result, ok, err,
}
use core_pip.Names.{canonicalize_name}
use core_pip.Version.{Version, final_suffix, key_ord}
use core_pip.Version.Build.{Groups, with_key}
use core_pip.SpecifierSet.{SetError, SpecifierSet, answer, contains, is_pinned, new_specifier_set}
use core_pip.Candidates.Models.{
  ArtifactKind, RejectionReason, invalid_version, different_project, version_mismatch,
  requires_python, yanked, unsupported_wheel, unsupported_artifact, Link, Candidate, Outcome,
  Requirement, is_yanked, is_wheel, is_sdist, is_source, is_installable,
}

-- `ZERO_VERSION`
abbrev pub zero_version : Version
zero_version = with_key 0 (0 ∷ []) final_suffix []

abbrev pub is_invalid_version : RejectionReason → Bool
is_invalid_version invalid_version = true
is_invalid_version _ = false

-- `requirement.is_satisfied_by(version)`, prereleases allowed, with the set that the question leaves
unfoldable pub is_satisfied_by : Requirement → Version → Bool × SpecifierSet
unfolding contains
is_satisfied_by r v = elim (is_nil r.specifier.specifiers) [
  | true ↦ (true, r.specifier)
  | false ↦ contains r.specifier v true
]

-- `allow_yanked`, `allow_binary`, `allow_source`
pub record Policy : Type 0 where
  pub allow_yanked : Bool
  pub allow_binary : Bool
  pub allow_source : Bool

-- The regular expression of versions and the running Python are given.
module _ (match : Text → Option Groups) (running_python : Version) where
  -- What the test of Requires-Python says: `none` for the handler of its `ValueError`.
  unfoldable pub requires_python_matches : Text → Option Bool
  requires_python_matches t = elim (new_specifier_set match t) [
    | err e ↦ none
    | ok l ↦ some (answer l false running_python)
  ]

  -- `link.requires_python` is absent or holds of the running Python.
  abbrev pub python_fits : Option Text → Bool
  python_fits none = true
  python_fits (some t) =
      if is_nil t then true else elim (requires_python_matches t) [ none ↦ false | some b ↦ b ]

  -- The statements behind the handling of a rejected link. The set is asked once at most, so that
  -- its tables are left as `is_satisfied_by` leaves them.
  abbrev pub evaluate_candidate : Policy → Link → Requirement → Candidate → Outcome
  evaluate_candidate policy link r c =
      if not r.is_unnamed_direct && not (canonicalize_name c.name =? canonicalize_name r.name)
      then err different_project
      else if not (r.is_unnamed_direct && is_source link.kind && c.version.key =? zero_version.key)
          && not (is_satisfied_by r c.version).0
      then err version_mismatch
      else if not (python_fits link.python_text)
      then err requires_python
      else if is_yanked link && not (policy.allow_yanked || is_pinned r.specifier.specifiers)
      then err yanked
      else if is_wheel link.kind && not (is_some c.tag_rank)
      then err unsupported_wheel
      else if not (is_installable link.kind)
      then err unsupported_artifact
      else ok c

  -- A link whose name and version are not known yet.
  abbrev pub placeholder : Link → Requirement → Candidate
  placeholder link r = record {
    name = r.name;
    version = zero_version;
    link = link;
    wheel_file = none;
    tag_rank = none;
  }

  unfoldable pub evaluate_parsed_link : Policy → Link → Requirement → Outcome → Outcome
  evaluate_parsed_link policy link r parsed =
      if is_wheel link.kind && not policy.allow_binary
      then err unsupported_artifact
      else if is_source link.kind && not policy.allow_source
      then err unsupported_artifact
      else elim parsed [
        | ok c ↦ evaluate_candidate policy link r c
        | err reason ↦
            if r.is_unnamed_direct && is_sdist link.kind && is_invalid_version reason
            then evaluate_candidate policy link r (placeholder link r)
            else err reason
      ]

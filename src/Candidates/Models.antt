-- ===== src/Candidates/Models.antt =====
-- Links, candidates and rejections of src/cpip/index/source_models.py and
-- src/cpip/index/links.py, with the attributes that the choice reads.
use core_pip.Prelude.{ℕ, Bool, true, false, Option, Text, is_some, codes, Result}
use core_pip.Version.{Version}
use core_pip.Caches.{Table, lookup}
use core_pip.Prelude.{text_ord}
use core_pip.SpecifierSet.{SpecifierSet}
use core_pip.Wheel.{WheelFile}

pub data ArtifactKind : Type 0 where
  wheel sdist source_tree metadata attestation unknown : ArtifactKind

pub data RejectionReason : Type 0 where
  different_project invalid_version version_mismatch requires_python yanked : RejectionReason
  unsupported_wheel unsupported_artifact invalid_wheel missing_artifact : RejectionReason

pub record Link : Type 0 where
  pub kind : ArtifactKind
  pub hashes : Table Text Text
  pub python_text : Option Text
  pub yanked_reason : Option Text
  pub filename : Text
  pub egg_fragment : Option Text

-- The property `is_yanked`
abbrev pub is_yanked : Link → Bool
is_yanked l = is_some l.yanked_reason

-- A `CandidateRecord`; `wheel_file` is its `wheel`
pub record Candidate : Type 0 where
  pub name : Text
  pub version : Version
  pub link : Link
  pub wheel_file : Option WheelFile
  pub tag_rank : Option ℕ

-- A candidate, or the reason of a `RejectedCandidate`
abbrev pub Outcome : Type 0
Outcome = Result RejectionReason Candidate

-- The attributes of a `Requirement` that the choice reads. `specifier` holds the tables of answers.
pub record Requirement : Type 0 where
  pub name : Text
  pub specifier : SpecifierSet
  pub is_unnamed_direct : Bool

-- `kind is ArtifactKind.WHEEL`, and membership in the two constant sets of kinds
abbrev pub is_wheel : ArtifactKind → Bool
is_wheel wheel = true
is_wheel _ = false

abbrev pub is_sdist : ArtifactKind → Bool
is_sdist sdist = true
is_sdist _ = false

abbrev pub is_source : ArtifactKind → Bool
is_source sdist = true
is_source source_tree = true
is_source _ = false

abbrev pub is_installable : ArtifactKind → Bool
is_installable wheel = true
is_installable sdist = true
is_installable source_tree = true
is_installable _ = false

-- `(link.hashes or {}).get("sha256")`
abbrev pub sha256_of : Candidate → Option Text
sha256_of c = lookup (codes "sha256") c.link.hashes

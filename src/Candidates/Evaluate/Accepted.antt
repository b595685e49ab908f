-- ===== src/Candidates/Evaluate/Accepted.antt =====
-- Which links become candidates.
use core_pip.Prelude.{
  ◌≡◌, ◌↔◌, ◌∙◌, ap, true, not, ◌&&◌, ◌||◌, Option, Text, text_ord, ◌=?◌, =?_iff, is_some, ok, err,
  arith,
}
use core_pip.Names.{canonicalize_name}
use core_pip.Version.{Version, key_ord}
use core_pip.Version.Build.{Groups}
use core_pip.SpecifierSet.{is_pinned}
use core_pip.Candidates.Models.{
  RejectionReason, Link, Candidate, Requirement, is_yanked, is_wheel, is_sdist, is_source,
  is_installable,
}
use core_pip.Candidates.Evaluate.{
  is_invalid_version, zero_version, is_satisfied_by, Policy, python_fits, placeholder,
  evaluate_parsed_link,
}

module _ (match : Text → Option Groups) (running_python : Version) where
  -- What is asked of a link and the candidate that it was parsed to.
  pub record IsAcceptable (policy : Policy) (link : Link) (r : Requirement) (c : Candidate)
      : Type 0 where
    pub binary_allowed : (not (is_wheel link.kind) || policy.allow_binary) ≡ true
    pub source_allowed : (not (is_source link.kind) || policy.allow_source) ≡ true
    pub same_project :
        (r.is_unnamed_direct || canonicalize_name c.name =? canonicalize_name r.name) ≡ true
    pub version_fits :
        ((is_satisfied_by r c.version).0
          || (r.is_unnamed_direct && is_source link.kind && c.version.key =? zero_version.key))
        ≡ true
    pub python : python_fits match running_python link.python_text ≡ true
    pub not_yanked :
        (not (is_yanked link) || policy.allow_yanked || is_pinned r.specifier.specifiers) ≡ true
    pub tags_supported : (not (is_wheel link.kind) || is_some c.tag_rank) ≡ true
    pub installable : is_installable link.kind ≡ true

  accepted_candidate :
      (policy : Policy) (link : Link) (r : Requirement) (c d : Candidate)
      → evaluate_parsed_link match running_python policy link r (ok c) ≡ ok d
      → c ≡ d
  unfolding evaluate_parsed_link
  accepted_candidate policy link r c d h = ground arith

  accepted_policy :
      (policy : Policy) (link : Link) (r : Requirement) (c d : Candidate)
      → evaluate_parsed_link match running_python policy link r (ok c) ≡ ok d
      → IsAcceptable policy link r c
  unfolding evaluate_parsed_link
  accepted_policy policy link r c d h = record {
    binary_allowed = ground arith;
    source_allowed = ground arith;
    same_project = ground arith;
    version_fits = ground arith;
    python = ground arith;
    not_yanked = ground arith;
    tags_supported = ground arith;
    installable = ground arith;
  }

  acceptable_accepted :
      (policy : Policy) (link : Link) (r : Requirement) (c : Candidate)
      → IsAcceptable policy link r c
      → evaluate_parsed_link match running_python policy link r (ok c) ≡ ok c
  unfolding evaluate_parsed_link
  acceptable_accepted policy link r c h = ground arith

  -- A parsed link becomes a candidate exactly if it meets every condition of the policy, and then
  -- it is the candidate that was parsed.
  pub evaluate_parsed_link_iff :
      (policy : Policy) (link : Link) (r : Requirement) (c d : Candidate)
      → (evaluate_parsed_link match running_python policy link r (ok c) ≡ ok d)
        ↔ ((c ≡ d) × IsAcceptable policy link r c)
  evaluate_parsed_link_iff policy link r c d = (
    λ h. (accepted_candidate policy link r c d h, accepted_policy policy link r c d h),
    λ (e, a). acceptable_accepted policy link r c a ∙ ap ok e,
  )

  placeholder_accepted :
      (policy : Policy) (link : Link) (r : Requirement) (reason : RejectionReason) (d : Candidate)
      → evaluate_parsed_link match running_python policy link r (err reason) ≡ ok d
      → ((r.is_unnamed_direct && is_sdist link.kind && is_invalid_version reason) ≡ true)
        × (evaluate_parsed_link match running_python policy link r
              (ok (placeholder match running_python link r))
            ≡ ok d)
  unfolding evaluate_parsed_link
  placeholder_accepted policy link r reason d h = ground arith

  placeholder_taken :
      (policy : Policy) (link : Link) (r : Requirement) (reason : RejectionReason)
      → (r.is_unnamed_direct && is_sdist link.kind && is_invalid_version reason) ≡ true
      → evaluate_parsed_link match running_python policy link r (err reason)
        ≡ evaluate_parsed_link match running_python policy link r
            (ok (placeholder match running_python link r))
  unfolding evaluate_parsed_link
  placeholder_taken policy link r reason h = ground arith

  placeholder-IsAcceptable :
      (policy : Policy) (link : Link) (r : Requirement) (reason : RejectionReason)
      → (r.is_unnamed_direct && is_sdist link.kind && is_invalid_version reason) ≡ true
      → policy.allow_source ≡ true
      → python_fits match running_python link.python_text ≡ true
      → (not (is_yanked link) || policy.allow_yanked || is_pinned r.specifier.specifiers) ≡ true
      → IsAcceptable policy link r (placeholder match running_python link r)
  placeholder-IsAcceptable policy link r reason taken source fits fresh = record {
    binary_allowed = ground arith;
    source_allowed = ground arith;
    same_project = ground arith;
    version_fits = ground (arith, =?_iff zero_version.key zero_version.key);
    python = fits;
    not_yanked = fresh;
    tags_supported = ground arith;
    installable = ground arith;
  }

  -- A link whose name and version could not be read becomes a candidate only if it is a source
  -- archive that an unnamed direct requirement locates; it is then the placeholder with the name
  -- of the requirement and version 0. The version clauses of the requirement are not asked, so it
  -- becomes one exactly if source archives are allowed, Requires-Python holds, and the link is
  -- not yanked or yanked links are allowed or the requirement is pinned.
  pub evaluate_parsed_link_unread :
      (policy : Policy) (link : Link) (r : Requirement) (reason : RejectionReason) (d : Candidate)
      → (evaluate_parsed_link match running_python policy link r (err reason) ≡ ok d) ↔ (
          (placeholder match running_python link r ≡ d)
          × ((r.is_unnamed_direct && is_sdist link.kind && is_invalid_version reason) ≡ true)
          × (policy.allow_source ≡ true)
          × (python_fits match running_python link.python_text ≡ true)
          × ((not (is_yanked link) || policy.allow_yanked || is_pinned r.specifier.specifiers)
              ≡ true))
  evaluate_parsed_link_unread policy link r reason d = (
    λ h.
        let (taken, accepted) = placeholder_accepted policy link r reason d h in
        let p = placeholder match running_python link r in
        let a = accepted_policy policy link r p d accepted in
        (
          accepted_candidate policy link r p d accepted,
          taken,
          ground (arith, a.source_allowed),
          a.python,
          a.not_yanked,
        ),
    λ (e, taken, source, python, fresh).
        placeholder_taken policy link r reason taken
        ∙ acceptable_accepted policy link r (placeholder match running_python link r)
            (placeholder-IsAcceptable policy link r reason taken source python fresh)
        ∙ ap ok e,
  )

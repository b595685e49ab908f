-- ===== src/Tests/Best.antt =====
-- The best of three candidates.
use core_pip.Prelude.{ℕ, ◌≡◌, refl, false, none, some, List, [], ◌∷◌, Text, codes, Result}
use core_pip.Version.{Version, final_suffix, key_ord}
use core_pip.Version.Release.{normalize}
use core_pip.Version.Build.{VersionError, with_key, new_version}
use core_pip.Wheel.Universal.{py3_none_any}
use core_pip.Candidates.Models.{Link, Candidate, wheel, sdist}
use core_pip.Candidates.Applicable.{CandidateEvaluator}
use core_pip.Candidates.Best.{sort_best_candidate, supported_tag_ranks, compute_best_candidate}
use core_pip.Candidates.Best.Laws.{IsBestResult, compute_best_candidate_lem}
use core_pip.Candidates.Best.Newest.{Outranks, sort_best_candidate-Outranks}
use core_pip.Specifier.{Specifier, at_least}
use core_pip.SpecifierSet.{fresh, fresh-IsSound}
use core_pip.Version.Build.{suffix_of}
use core_pip.Candidates.Applicable.Asked.{IsMade}
use core_pip.Tests.Matcher.{reader}

abbrev version_of : Text → Result VersionError Version
version_of t = new_version reader t

abbrev two : Version
two = with_key 0 (2 ∷ []) final_suffix []

abbrev source : Link
source = record {
  kind = sdist;
  hashes = [];
  python_text = none;
  yanked_reason = none;
  filename = codes "foo-2.tar.gz";
  egg_fragment = none;
}

abbrev archive : Candidate
archive = record {
  name = codes "foo";
  version = two;
  link = source;
  wheel_file = none;
  tag_rank = none;
}

abbrev built : Candidate
built = record archive {
  link = record source { kind = wheel; filename = codes "foo-2-py3-none-any.whl" };
  wheel_file =
      some
        (record { name = codes "foo"; version = two; build_tag = none; tags = py3_none_any ∷ [] });
  tag_rank = some 0;
}

abbrev yanked : Candidate
yanked = record archive {
  version = with_key 0 (3 ∷ []) final_suffix [];
  link = record source { yanked_reason = some (codes "broken") };
}

-- ">=2"
abbrev least : Specifier
least = record {
  operator = at_least;
  version = codes "2";
  parsed_version = some two;
  is_wildcard = false;
}

abbrev evaluator : CandidateEvaluator
unfolding supported_tag_ranks
evaluator = record {
  project_name = codes "foo";
  specifier = fresh (least ∷ []);
  release_control = none;
  hashes = none;
  supported_tag_ranks = supported_tag_ranks (py3_none_any ∷ []);
  prefer_binary = false;
}

abbrev found : List Candidate
found = yanked ∷ archive ∷ built ∷ archive ∷ []

-- A wheel comes before a source archive of its version, and both before a yanked link.
chosen : sort_best_candidate version_of evaluator found ≡ some built
unfolding sort_best_candidate evaluator key_ord normalize
chosen = refl

made : (n : ℕ) (r : List ℕ) → IsMade (with_key 0 (n ∷ r) final_suffix [])
unfolding suffix_of
made n r = record {
  version = record { release_given = refl; normal = refl };
  suffix = (none, none, none, λ r n h. cc, refl);
}

compute_best_candidate_lem_example :
    IsBestResult version_of evaluator found (compute_best_candidate version_of evaluator found).0
unfolding evaluator
compute_best_candidate_lem_example =
    compute_best_candidate_lem version_of evaluator found (two, refl, tt)
      (fresh-IsSound (least ∷ [])) (made 3 [], (made 2 [], (made 2 [], (made 2 [], tt))))

sort_best_candidate-Outranks_example :
    Outranks version_of evaluator found (sort_best_candidate version_of evaluator found)
sort_best_candidate-Outranks_example = sort_best_candidate-Outranks version_of evaluator found

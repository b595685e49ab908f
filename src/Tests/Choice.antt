-- ===== src/Tests/Choice.antt =====
-- Options, and the choice of candidates.
use core_pip.Prelude.{
  arith, ◌=?◌, ℕ, ◌≡◌, ◌↔◌, refl, true, false, ◌&&◌, ◌||◌, none, some, List, [], ◌∷◌, every,
  some_of, is_nil, Text, codes, ok, err, inr, text_ord, strip, split,
}
use core_pip.Names.{canonicalize_name}
use core_pip.Version.{Version, final_suffix, is_prerelease, key_ord}
use core_pip.Version.Build.{with_key, suffix_of}
use core_pip.Version.Release.{normalize}
use core_pip.Specifier.{Specifier, at_least, contains_op}
use core_pip.Specifier
use core_pip.SpecifierSet.{contains, fresh, fresh-IsSound, explicitly_allows_prereleases}
use core_pip.Controls.{entries_of, has, add, discard}
use core_pip.Controls.Format
use core_pip.Controls.Format.{allowed_formats}
use core_pip.Controls.Format.Laws.{allowed_formats_some}
use core_pip.Controls.Release
use core_pip.Controls.Release.{allows_prereleases}
use core_pip.Candidates.Models.{Link, Candidate, Requirement, wheel, sdist, invalid_version}
use core_pip.Candidates.Applicable.{CandidateEvaluator, is_final, get_applicable_candidates}
use core_pip.Candidates.Applicable.Laws.{satisfies, get_applicable_candidates_some}
use core_pip.Candidates.Applicable.Asked.{AreVersions}
use core_pip.Candidates.Applicable.Final.{get_applicable_candidates_final}
use core_pip.Candidates.Evaluate.{
  Policy, python_fits, placeholder, is_satisfied_by, evaluate_parsed_link,
}
use core_pip.Candidates.Evaluate.Accepted.{
  IsAcceptable, evaluate_parsed_link_iff, evaluate_parsed_link_unread,
}
use core_pip.Caches.{lookup}
use core_pip.Tests.Matcher.{reader}

-- "--no-binary :all: --only-binary foo"
abbrev options : List (Text × Text)
options = (codes "no_binary", codes ":all:") ∷ (codes "only-binary", codes "Foo") ∷ []

abbrev chosen : Format.FormatControl
chosen = record { no_binary = codes ":all:" ∷ []; only_binary = codes "foo" ∷ [] }

options_applied : Format.apply_all options Format.empty ≡ ok chosen
unfolding Format.apply has add discard canonicalize_name strip split
options_applied = refl

allowed_formats_some_example :
    ((allowed_formats (codes "bar") chosen).0 || (allowed_formats (codes "bar") chosen).1) ≡ true
allowed_formats_some_example = allowed_formats_some options chosen (codes "bar") options_applied

foo_entry : entries_of (codes "Foo") ≡ codes "Foo" ∷ []
unfolding strip split
foo_entry = refl

foo_canonical : canonicalize_name (codes "Foo") ≡ codes "foo"
unfolding canonicalize_name
foo_canonical = refl

abbrev all_source : Format.FormatControl
all_source = record { no_binary = codes ":all:" ∷ []; only_binary = [] }

foo_applied : Format.apply (codes "only-binary") (codes "Foo") all_source ≡ ok chosen
unfolding Format.apply has add discard canonicalize_name strip split
foo_applied = refl

abbrev finals : Release.ReleaseControl
finals = record { all_releases = []; only_final = codes ":all:" ∷ [] }

abbrev finals_but_foo : Release.ReleaseControl
finals_but_foo = record { all_releases = codes "foo" ∷ []; only_final = codes ":all:" ∷ [] }

foo_allowed : Release.apply (codes "all_releases") (codes "Foo") finals ≡ ok finals_but_foo
unfolding Release.apply has add discard canonicalize_name strip split
foo_allowed = refl

bar_differs : (canonicalize_name (codes "bar") =? canonicalize_name (codes "Foo")) ≡ false
unfolding canonicalize_name
bar_differs = refl

abbrev final : List ℕ → Version
final r = with_key 0 r final_suffix []

abbrev file : Link
file = record {
  kind = wheel;
  hashes = (codes "sha256", codes "abc") ∷ [];
  python_text = none;
  yanked_reason = none;
  filename = codes "Foo-1.0-py3-none-any.whl";
  egg_fragment = none;
}

abbrev one : Candidate
one = record {
  name = codes "Foo";
  version = final (1 ∷ []);
  link = file;
  wheel_file = none;
  tag_rank = some 0;
}

abbrev next : Candidate
next = record {
  name = codes "Foo";
  version = with_key 0 (2 ∷ []) (suffix_of (some (2, 1)) none none) [];
  link = file;
  wheel_file = none;
  tag_rank = some 0;
}

abbrev least : Specifier
least = record {
  operator = at_least;
  version = codes "1.0";
  parsed_version = some (final (1 ∷ 0 ∷ []));
  is_wildcard = false;
}

abbrev evaluator : CandidateEvaluator
evaluator = record {
  project_name = codes "foo";
  specifier = fresh (least ∷ []);
  release_control = none;
  hashes = some (codes "abc" ∷ []);
  supported_tag_ranks = (codes "py3-none-any", 0) ∷ [];
  prefer_binary = false;
}

one-satisfies : some_of (satisfies evaluator.specifier.specifiers) (next ∷ one ∷ []) ≡ true
unfolding Specifier.contains contains_op key_ord normalize suffix_of
one-satisfies = refl

final_satisfies :
    some_of (λ c. is_final c && satisfies evaluator.specifier.specifiers c) (next ∷ one ∷ []) ≡ true
unfolding Specifier.contains contains_op key_ord normalize suffix_of is_prerelease
final_satisfies = refl

no_prerelease_named : explicitly_allows_prereleases evaluator.specifier.specifiers ≡ false
unfolding is_prerelease
no_prerelease_named = refl

candidates_made : AreVersions (next ∷ one ∷ [])
unfolding suffix_of
candidates_made = (
  record {
    version = record { release_given = refl; normal = refl };
    suffix = (some (2, 1), none, none, λ r n h. ground (arith, h), refl);
  },
  (
    record {
      version = record { release_given = refl; normal = refl };
      suffix = (none, none, none, λ r n h. cc, refl);
    },
    tt,
  ),
)

get_applicable_candidates_some_example :
    is_nil (get_applicable_candidates evaluator (next ∷ one ∷ [])).0 ≡ false
get_applicable_candidates_some_example =
    get_applicable_candidates_some evaluator (next ∷ one ∷ []) refl (final (1 ∷ 0 ∷ []), refl, tt)
      (fresh-IsSound (least ∷ [])) candidates_made one-satisfies

get_applicable_candidates_final_example :
    every is_final (get_applicable_candidates evaluator (next ∷ one ∷ [])).0 ≡ true
get_applicable_candidates_final_example =
    get_applicable_candidates_final evaluator (next ∷ one ∷ []) (fresh-IsSound (least ∷ []))
      candidates_made (inr (refl, no_prerelease_named, final_satisfies))

abbrev policy : Policy
policy = record { allow_yanked = false; allow_binary = true; allow_source = true }

abbrev wanted : Requirement
wanted = record { name = codes "foo"; specifier = fresh (least ∷ []); is_unnamed_direct = false }

evaluate_parsed_link_iff_example :
    (evaluate_parsed_link reader (final (3 ∷ 12 ∷ [])) policy file wanted (ok one) ≡ ok one)
    ↔ ((one ≡ one) × IsAcceptable reader (final (3 ∷ 12 ∷ [])) policy file wanted one)
evaluate_parsed_link_iff_example =
    evaluate_parsed_link_iff reader (final (3 ∷ 12 ∷ [])) policy file wanted one one

one_accepted :
    evaluate_parsed_link reader (final (3 ∷ 12 ∷ [])) policy file wanted (ok one) ≡ ok one
unfolding evaluate_parsed_link is_satisfied_by contains lookup canonicalize_name is_prerelease
    Specifier.contains contains_op key_ord normalize
one_accepted = refl

abbrev archive : Link
archive = record file { kind = sdist }

abbrev unnamed : Requirement
unnamed = record wanted { is_unnamed_direct = true }

evaluate_parsed_link_unread_example :
    (evaluate_parsed_link reader (final (3 ∷ 12 ∷ [])) policy archive unnamed (err invalid_version)
      ≡ ok (placeholder reader (final (3 ∷ 12 ∷ [])) archive unnamed))
    ↔ ((placeholder reader (final (3 ∷ 12 ∷ [])) archive unnamed
          ≡ placeholder reader (final (3 ∷ 12 ∷ [])) archive unnamed)
        × (true ≡ true)
        × (true ≡ true)
        × (python_fits reader (final (3 ∷ 12 ∷ [])) none ≡ true)
        × (true ≡ true))
evaluate_parsed_link_unread_example =
    evaluate_parsed_link_unread reader (final (3 ∷ 12 ∷ [])) policy archive unnamed invalid_version
      (placeholder reader (final (3 ∷ 12 ∷ [])) archive unnamed)

-- ===== src/Lib.antt =====
-- Verification of core-pip: versions, version clauses, the options that choose formats and
-- prereleases, wheel tags, the choice of candidates, the record of a direct URL, and transactions
-- of an installation.
--
-- The program is a pip replacement. A requirement names a project and a set of version clauses. The
-- index lists links, each of which is parsed to a candidate with a version or to a rejection.
-- `CandidateEvaluator` keeps the links that the policy and the clauses allow, and the resolver
-- intersects the intervals that the clauses imply. What is modelled is the layer that decides, and
-- the transaction that puts the files of a distribution in place:
--
--   src/cpip/core/names.py              Names: `canonicalize_name` and its short cut
--   src/cpip/core/versions.py           Version: `Version.__new__` (Version.Build: `new_version`),
--                                       the tuple as an ordering key (Version.Order), the release
--                                       element (Version.Release), the spelling (Version.Display),
--                                       the cached record (Version.Wire)
--   src/cpip/core/packaging.py          Specifier: `Specifier.__init__` and `contains`,
--                                       `_prefix_matches`; Specifier.Bounds:
--                                       `compatible_upper_bound_internal` and `_bounds_of`;
--                                       SpecifierSet: its parser (SpecifierSet.Parse), derived
--                                       properties and `contains` with its two answer tables;
--                                       Requirement: `split_marker`, `looks_like_direct_reference`;
--                                       Markers: `marker_applies_internal` and its helpers
--   src/cpip/core/caches.py             Caches: `bounded_put` and the intern tables kept with it
--   src/cpip/core/hashes.py             Hashes: `Hashes`, its intersection and its checks
--   src/cpip/core/format_control.py     Controls.Format: `FormatControl`
--   src/cpip/core/release_control.py    Controls.Release: `ReleaseControl`
--   src/cpip/index/source_models.py     Candidates.Models: the records, with the attributes read
--   src/cpip/index/links.py             Candidates.Models: the attributes of `Link` that are read
--   src/cpip/index/candidate_filters.py Candidates.Hashes: `filter_unallowed_hashes`
--   src/cpip/install/transaction.py     Transaction: staging (Transaction.Staging), `validate` and
--                                       `commit` (Transaction.Commit), `rollback`
--                                       (Transaction.Rollback), over a disk whose calls may raise
--                                       (Transaction.FileSystem)
--   src/cpip/index/candidate_evaluators.py
--                                       Candidates.Applicable: `get_applicable_candidates`;
--                                       Candidates.Evaluate: `evaluate_parsed_link`;
--                                       Candidates.Best: `sort_key_internal`, the best candidate
--   src/cpip/core/direct_url.py         DirectUrl: the record of direct_url.json, how it is read
--                                       (DirectUrl.Json) and validated, and how its URL is redacted
--                                       and it is written
--   src/cpip/resolution/files/parser.py RequirementFile: how a requirements file is cut into lines
--   src/cpip/core/wheel.py              Wheel: the file name, the tags and what a target supports
--                                       (Wheel.Ranks, Wheel.Macos, Wheel.Universal), and the
--                                       validation of an archive (Wheel.DistInfo)
--
-- How the source is read. A `str` is the list of its code points (Prelude.Strings); letters, digits
-- and blanks are those of ASCII. A `dict` is an association list of which only lookups are
-- observed, but the values of `json` and the hashes of a direct URL keep their order; a `set` of
-- texts is a list of which only membership is observed. Methods that change an object return the
-- new one; the answer tables of a `SpecifierSet` are part of the record and are passed along, but
-- for the set that Requires-Python is parsed to, which is asked for one version alone. An exception
-- is an `err` of a result type. Properties that memoize a function of the immutable fields are that
-- function.
--
-- Parameters. Matching `VERSION_RE` belongs to Python's `re`: `match` takes the stripped text to
-- the groups, and where a theorem needs it, a hypothesis says what the pattern reads (a plain
-- release, or a release behind an epoch). So are the two calls of `re.split` and the `re.match` of
-- the marker evaluation, the environment, `urlparse`, `urlsplit` and `urlunsplit`, `json`,
-- `splitlines`, reading the members of an archive, the paths of `os`, the umask, the platform of
-- the running system, the digests of `hashlib` and the version of the running Python.
--
-- Bounds. `normalize_loop` drops one segment in each round, so as many rounds as there are segments
-- are enough; `str_digits` prints one digit in each round, and a number has at most as many digits
-- as its value plus one; `strip_grouping_loop` makes the text shorter in each round, so as many
-- rounds as it has characters are enough. The tables hold 4096 answers for a set of clauses; the
-- theorems on `bounded_put` and on the intern tables hold of every limit above zero.
--
-- A transaction runs against a disk that says what stands at a path. `fault n` says whether the
-- call number `n` of the operating system raises, and how much a copy has written by then. The
-- calls of `rollback` itself do not raise, `makedirs` and `remove_empty_parents` have no effect on
-- the disk, and a copy that breaks off has the mode of its source.
--
-- Not modelled: the rest of `parse_requirement`, the environment of markers, the contents of wheels
-- but for their validation, the resolver, the options and inclusions of requirements files,
-- `finalize` and the parent directories that a transaction makes and removes, and all input and
-- output.
pub mod Prelude
pub mod Caches
pub mod Names
pub mod Version
pub mod Specifier
pub mod SpecifierSet
pub mod Controls
pub mod Wheel
pub mod Hashes
pub mod Candidates
pub mod Requirement
pub mod Markers
pub mod Transaction
pub mod RequirementFile
pub mod DirectUrl
pub mod Tests

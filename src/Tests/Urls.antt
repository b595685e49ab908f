-- ===== src/Tests/Urls.antt =====
-- The record of where a distribution came from.
use core_pip.Prelude.{
  ◌≡◌, refl, none, some, [], ◌∷◌, ◌++◌, Text, codes, Result, ok, err, and_then, join,
}
use core_pip.DirectUrl.{
  DirectUrlError, invalid_hash, DirectUrl, SplitUrl, from_dict, to_dict, to_dict_compat,
  redacted_url, as_pep440_direct_reference, is_variable, archive_info_from_dict, validated,
  validate,
}
use core_pip.DirectUrl.Json.{Json, string, object, JsonDict, no_entries, entry}
use core_pip.DirectUrl.RoundTrip.{from_dict-to_dict}
use core_pip.DirectUrl.Legacy.{from_dict-to_dict_compat}
use core_pip.DirectUrl.Redacted.{redacted_url_lem}

abbrev str : Json → Text
str v = codes "None"

abbrev text : Json → Json
text v = v

-- "https://u:p@h/a"
abbrev secret : SplitUrl
secret = record {
  scheme = codes "https";
  netloc = codes "u:p@h";
  path = codes "/a";
  query = [];
  fragment = [];
}

-- A `urlsplit` that knows one text
abbrev urlsplit : Text → Result DirectUrlError SplitUrl
urlsplit t = ok secret

abbrev urlunsplit : SplitUrl → Text
urlunsplit s = s.scheme ++ (codes "://" ++ (s.netloc ++ s.path))

abbrev url : Text
url = codes "https://u:p@h/a"

-- Two hashes
abbrev hashes : JsonDict
hashes =
    entry (codes "sha256") (string (codes "aa"))
      (entry (codes "md5") (string (codes "bb")) no_entries)

abbrev raw : JsonDict
raw =
    entry (codes "archive_info") (object (entry (codes "hashes") (object hashes) no_entries))
      (entry (codes "url") (string url) no_entries)

abbrev archive : DirectUrl
archive = record {
  url = url;
  info_subdir = none;
  archive_info = some (record {
    hash = none;
    hashes = some ((codes "sha256", codes "aa") ∷ (codes "md5", codes "bb") ∷ []);
  });
  dir_info = none;
  vcs_info = none;
}

abbrev checkout : DirectUrl
checkout = record archive {
  archive_info = none;
  vcs_info = some (record { vcs = codes "git"; commit_id = codes "c0"; requested_revision = none });
}

raw_read : from_dict str raw ≡ ok archive
unfolding from_dict archive_info_from_dict validated validate
raw_read = refl

archive_redacted : redacted_url urlsplit urlunsplit archive ≡ ok url
unfolding redacted_url is_variable
archive_redacted = refl

references :
    as_pep440_direct_reference archive (codes "n") ≡ codes "n @ https://u:p@h/a#md5=bb&sha256=aa"
unfolding as_pep440_direct_reference join
references = refl

no_digest :
    from_dict str (
      entry (codes "url") (string url) (
        entry
          (codes "archive_info")
          (object (entry (codes "hash") (string (codes "sha256:aaa")) no_entries))
          no_entries))
    ≡ err invalid_hash
unfolding from_dict archive_info_from_dict
no_digest = refl

from_dict-to_dict_example :
    and_then (to_dict urlsplit urlunsplit archive) (from_dict str) ≡ ok archive
from_dict-to_dict_example =
    from_dict-to_dict urlsplit urlunsplit str raw archive url raw_read archive_redacted refl

-- The second hash is lost.
from_dict-to_dict_compat_example :
    and_then (to_dict_compat urlsplit urlunsplit archive) (from_dict str)
    ≡ ok (record archive {
      archive_info = some (record {
        hash = some (codes "sha256=aa");
        hashes = some ((codes "sha256", codes "aa") ∷ []);
      });
    })
from_dict-to_dict_compat_example =
    from_dict-to_dict_compat urlsplit urlunsplit str raw archive url raw_read archive_redacted refl
      refl

redacted_url_lem_example : redacted_url urlsplit urlunsplit checkout ≡ ok (codes "https://h/a")
redacted_url_lem_example =
    redacted_url_lem urlsplit urlunsplit checkout secret (codes "u:p") (codes "h") refl refl refl
      refl (unfold is_variable in refl) (unfold is_variable in refl)

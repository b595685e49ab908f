-- ===== src/DirectUrl.antt =====
-- The record of where a distribution came from, of src/cpip/core/direct_url.py.
pub mod Json
mod Defs
mod Write
pub mod Accepted
pub mod RoundTrip
pub mod Legacy
pub mod Redacted
pub use Defs.*
unfoldable pub use Defs.{
  archive_info_from_dict, dir_info_from_dict, vcs_info_from_dict, validate, validated, from_dict,
  from_json,
}
pub use Write.*
unfoldable pub use Write.{
  is_variable, archive_info_to_dict, dir_info_to_dict, vcs_info_to_dict, dict_of, redacted_url,
  to_dict, to_dict_compat, to_json, as_pep440_direct_reference,
}

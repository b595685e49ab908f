-- ===== src/Wheel.antt =====
-- File names and tags of wheels, of src/cpip/core/wheel.py.
pub mod Number
mod Defs
mod Matching
pub mod Ranks
pub mod Universal
pub mod Macos
pub mod FileName
pub mod DistInfo
pub use Defs.*
unfoldable pub use Defs.{
  split_at_most, platform_parts, parsed_wheel_tags, parse_wheel_filename, parse_wheel_file,
  legacy_build_tag,
}
pub use Matching.*
unfoldable pub use Matching.{
  macos_matches, ios_matches, android_matches, interpreter_matches, platform_matches, tag_matches,
  matches_some, rank_from, wheel_tag_rank, supported_wheel_tags,
}

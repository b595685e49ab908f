-- ===== src/Hashes.antt =====
-- `Hashes` of src/cpip/core/hashes.py.
mod Defs
mod Intersection
mod Check
pub use Defs.*
unfoldable pub use Defs.{hashes_of, intersection, is_hash_allowed, check_against_chunks}
pub use Intersection.*
pub use Check.*

-- ===== src/Specifier.antt =====
-- `Specifier`, `_prefix_matches`, `compatible_upper_bound_internal` and `_bounds_of` of
-- src/cpip/core/packaging.py.
mod Defs
mod Padding
pub mod Keys
pub mod Laws
pub mod Bounds
pub use Defs.*
unfoldable pub use Defs.{new_specifier, prefix_matches, contains_op, contains}

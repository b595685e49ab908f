-- ===== src/Markers.antt =====
-- The evaluation of environment markers, in src/cpip/core/packaging.py.
mod Defs
mod Grouping
pub mod Matched
mod Disjunction
pub use Defs.*
unfoldable pub use Defs.{strip_grouping_loop, strip_grouping_parentheses, marker_applies_internal}
pub use Grouping.*
pub use Disjunction.*

-- ===== src/Specifier/Bounds.antt =====
-- The interval that a list of clauses implies.
mod Defs
mod Increment
mod Compatible
mod Sound
mod Excluded
pub use Defs.*
unfoldable pub use Defs.{compatible_upper_bound, bounds_of}
pub use Compatible.*
pub use Sound.*
pub use Excluded.*

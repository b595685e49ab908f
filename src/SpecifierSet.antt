-- ===== src/SpecifierSet.antt =====
-- `SpecifierSet` of src/cpip/core/packaging.py.
mod Defs
mod Parse
mod Pinned
mod Answers
mod Shared
mod Sound
pub use Defs.*
unfoldable pub use Defs.{contains}
pub use Parse.*
unfoldable pub use Parse.{new_specifier_set}
pub use Pinned.*
pub use Answers.*
pub use Shared.*
pub use Sound.*

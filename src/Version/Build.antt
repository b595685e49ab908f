-- ===== src/Version/Build.antt =====
-- `Version.__new__` without its intern table: the short cut for plain releases, and the key that is
-- built from the groups of `VERSION_RE`. Matching is the work of Python's `re` and a parameter here.
mod Plain
mod Suffixes
mod Total
mod Epoch
pub use Defs.*
unfoldable pub use Defs.{suffix_of, build, new_version}
mod Defs
pub use Plain.*
pub use Suffixes.*
pub use Total.*
pub use Epoch.*

-- ===== src/Caches.antt =====
-- src/cpip/core/caches.py, and the intern tables that `Version.__new__` and
-- `SpecifierSet.__new__` keep in the way that it prescribes.
mod Defs
mod Laws
mod Intern
pub use Defs.*
unfoldable pub use Defs.{lookup, insert, bounded_put}
pub use Laws.*
pub use Intern.*
unfoldable pub use Intern.{interned}

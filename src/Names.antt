-- ===== src/Names.antt =====
-- src/cpip/core/names.py: PEP 503 names. The memo of `canonicalize_name` is left out: it caches a
-- function of the name alone.
mod FastPath
mod Canonical
pub use FastPath.*
pub use Canonical.*
mod Defs
pub use Defs.*
unfoldable pub use Defs.{canonicalize_name}

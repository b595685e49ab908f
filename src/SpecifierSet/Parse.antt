-- ===== src/SpecifierSet/Parse.antt =====
-- `SpecifierSet.__new__` without its intern table, and the canonical text of a set.
mod Defs
mod RoundTrip
pub use Defs.*
unfoldable pub use Defs.{new_specifier_set}
pub use RoundTrip.*

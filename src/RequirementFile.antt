-- ===== src/RequirementFile.antt =====
-- Requirements files, of src/cpip/resolution/files/parser.py.
mod Defs
pub mod Continued
pub use Defs.*
unfoldable pub use Defs.{cleaned, continued, lines_from, is_live, requirement_lines}

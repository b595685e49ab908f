-- ===== src/Controls.antt =====
-- src/cpip/core/format_control.py and src/cpip/core/release_control.py: the options that choose
-- artifact formats and prereleases for each project.
mod Sets
pub mod Format
pub mod Release
pub use Sets.*
unfoldable pub use Sets.{has, add, discard}

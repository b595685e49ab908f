-- ===== src/Version.antt =====
-- src/cpip/core/versions.py: a version is its own ordering key.
pub mod Defs
mod Order
pub mod Release
pub mod Decimal
pub mod Display
pub mod Marked
pub mod Build
pub mod Wire
pub use Display.*
unfoldable pub use Display.{public}
pub use Order.*
unfoldable pub use Order.{segment_ord, suffix_ord, key_ord}
pub use Defs.*
unfoldable pub use Defs.{is_prerelease}

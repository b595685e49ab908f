-- ===== src/Transaction.antt =====
-- `InstallTransaction` of src/cpip/install/transaction.py: staging, commit and rollback.
mod FileSystem
mod Staging
mod Rollback
mod Commit
mod Recovered
mod Lost
mod Safe
mod Backups
mod Placing
mod Validated
mod Staged
mod Installed
mod Ready
mod Atomic
mod Outcome
mod Placed
mod Finished
mod Whole
mod Undisturbed
mod Calm
pub use FileSystem.*
unfoldable pub use FileSystem.{put}
pub use Staging.*
unfoldable pub use Staging.{stage, adopt}
pub use Rollback.*
unfoldable pub use Rollback.{rollback}
pub use Commit.*
unfoldable pub use Commit.{validate, commit}
pub use Installed.{destinations, AreDistinct, AreApart}
pub use Staged.*
pub use Ready.{is_sturdy, IsReady}
pub use Atomic.{commit-rollback}
pub use Safe.{Leaves}
pub use Recovered.{AreOutside, IsNumbered}
pub use Placed.{AreSettled}
pub use Finished.{outcome_at}
pub use Whole.{commit-Leaves}
pub use Undisturbed.{Succeeds}
pub use Calm.{IsSound, commit-Succeeds}
pub use Lost.*

-- ===== src/Parameters.antt =====
-- services/parameter-server/app/services/parameter_storage.py: the versions of a model's
-- parameters, and its checkpoints.
mod Records
mod Checkpoints
mod Storage
mod Server
pub mod Retention
pub mod Untouched
pub mod Log
pub mod Histories
pub mod Replay
pub mod Runs
pub mod Keys
pub mod Restore
pub mod Pushes
pub mod Pulls
unfoldable pub use Records.*
unfoldable pub use Checkpoints.*
unfoldable pub use Storage.*
unfoldable pub use Server.*

-- ===== src/Distributor.antt =====
-- services/dataset-sharder/app/services/data_distribution.py: which worker downloads which batch.
mod Assignments
mod Strategies
mod Downloads
pub mod Spread
pub mod Balance
pub mod Records
pub mod Names
pub mod Tracking
pub mod Registering
pub mod Retries
unfoldable pub use Assignments.*
unfoldable pub use Strategies.*
unfoldable pub use Downloads.*

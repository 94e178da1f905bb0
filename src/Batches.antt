-- ===== src/Batches.antt =====
-- services/dataset-sharder/app/services/batch_storage.py: how a shard is cut into batches, and the
-- files that hold them. The proofs are in the children.
mod Ids
mod Files
mod Manager
pub mod Slices
pub mod Filing
pub mod Paths
unfoldable pub use Ids.*
unfoldable pub use Files.*
unfoldable pub use Manager.*

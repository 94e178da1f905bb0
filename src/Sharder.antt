-- ===== src/Sharder.antt =====
-- services/dataset-sharder/app/services/dataset_sharder.py: how a data set is cut into shards.
-- The data types and the cutting stand in Sharder/Shards.antt, the proofs in the other children.
mod Shards
pub mod Chunks
pub mod Partition
pub mod Sizes
unfoldable pub use Shards.*

-- ===== src/Workers.antt =====
-- services/task-orchestrator/app/services/worker_registry.py and worker_discovery.py: the workers that
-- are known, their pools, and which worker gets a job.
mod Registry
mod Membership
mod Discovery
pub mod Soundness
pub mod Pools
pub mod Matching
pub mod Rollback
unfoldable pub use Registry.*
unfoldable pub use Membership.*
unfoldable pub use Discovery.*

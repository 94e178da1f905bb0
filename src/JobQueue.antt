-- ===== src/JobQueue.antt =====
-- services/task-orchestrator/app/services/job_queue.py: the queue of training jobs. The proofs are
-- in the children: what one status update does, the status index, the life cycle of a job,
-- assignment and release, the choice of the next job.
mod Jobs
mod Operations
mod Upkeep
pub mod Update
pub mod Index
pub mod Calls
pub mod Lifecycle
pub mod Assignment
pub mod Choice
pub mod Sweep
pub mod Ending
pub mod Expiry
unfoldable pub use Jobs.*
unfoldable pub use Operations.*
unfoldable pub use Upkeep.*

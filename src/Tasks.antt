-- ===== src/Tasks.antt =====
-- services/task-orchestrator/app/services/task_assignment.py: the choice of a worker for one job,
-- and for a batch of jobs.
mod Records
mod Selection
mod Assigning
mod Batches
mod Policies
pub mod Idle
pub mod Rebalance
pub mod Refusal
unfoldable pub use Records.*
unfoldable pub use Selection.*
unfoldable pub use Assigning.*
unfoldable pub use Batches.*
unfoldable pub use Policies.*

-- ===== src/Streams.antt =====
-- The streaming part of services/task-orchestrator/app: grpc_server.py, with its `StreamManager`,
-- and services/assignment_engine.py, which hands the data batches of the active jobs to the workers
-- that stream.
mod Tables
mod Manager
mod Events
pub mod Updates
pub mod Closed
unfoldable pub use Tables.*
unfoldable pub use Manager.*
unfoldable pub use Events.*

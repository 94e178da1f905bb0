-- ===== src/Tests.antt =====
-- Sample inputs, runs of the program on them, and the theorems at inputs that meet their hypotheses.
mod Server
mod Shards
mod Files
mod Gateway
mod Jobs
mod Batches
mod Workers
mod Models
mod Parameters
mod Tasks
mod Streams

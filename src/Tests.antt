-- ===== src/Tests.antt =====
-- Runs of the model of client/src on concrete inputs.
pub mod Data
pub mod Json
pub mod Streams
pub mod Client
pub mod Shard
pub mod Selector
pub mod Result
pub mod Schedule
pub mod Reads
pub mod Gateway

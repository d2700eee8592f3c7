-- ===== src/Tests/Server.antt =====
-- The handlers of src/server.rs over the store in memory, an object store in memory and a counting
-- semaphore.
pub mod Samples
mod Blobs
mod Limits
mod Lookups
pub mod Records
mod Trees
mod Commits
mod Frames

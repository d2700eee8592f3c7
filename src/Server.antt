-- ===== src/Server.antt =====
-- The HTTP service: src/server.rs.
pub mod Errors
pub mod Digests
pub mod Spool
pub mod Pending
pub mod Preconditions
pub mod Entries
pub mod Service
pub mod Handler
pub mod Blobs
pub mod Lookups
pub mod Serde
pub mod Objects
pub mod ReadOnly
pub mod Frames
pub mod Tree
pub mod Descriptors
pub mod ClientMetadata
pub mod Commits
pub mod Manifests

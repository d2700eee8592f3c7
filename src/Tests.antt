-- ===== src/Tests.antt =====
-- The theorems at concrete inputs.
mod Pack
mod Auth
mod Metadata
mod Model
pub mod Server
mod Postgres

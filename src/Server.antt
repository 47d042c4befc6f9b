-- ===== src/Server.antt =====
-- The central server, server/app.
pub mod Sessions
pub mod Inspect
pub mod Auth
pub mod CveSync
pub mod Registry
pub mod Doris
pub mod Stats
pub mod Gateway
pub mod Grpc
pub mod Bootstrap

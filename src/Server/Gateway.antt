-- ===== src/Server/Gateway.antt =====
-- The way of a request through server/app/main.py: the middleware of the application around its
-- routes, and the audit entries that it leaves behind.
pub mod Headers
pub mod Stack
pub mod Traced
pub mod Policy
pub mod Secured
pub mod System
pub mod Verified
pub mod Provenance
mod Tests

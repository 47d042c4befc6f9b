-- ===== src/Server/CveSync.antt =====
-- The CVE feed synchronisation, server/app/cve_sync.py. The feeds are given as the parsed JSON that
-- their services answer, `none` where the request or the parsing raises.
pub mod Entry
pub mod Product
pub mod Handcrafted
pub mod Osv
pub mod Feeds
pub mod Upsert
pub mod Sync
pub mod Upserted
pub mod Flags
pub mod Caseless
pub mod Overridden
mod Tests

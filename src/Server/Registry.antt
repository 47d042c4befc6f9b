-- ===== src/Server/Registry.antt =====
-- The endpoints of agents, their telemetry and their updates: server/app/routers/agents.py,
-- server/app/routers/telemetry.py and server/app/routers/updates.py.
pub mod Defs
pub mod Updates
pub mod Requests
pub mod Sound
pub mod Stored
mod Tests

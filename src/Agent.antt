-- ===== src/Agent.antt =====
-- The agent (agent/): the security pipeline and its tiers, content inspection, telemetry buffer.
pub mod Runtime
pub mod Floats
pub mod Request
pub mod Patterns
pub mod Injection
pub mod Anomaly
pub mod MagicBytes
pub mod Base64
pub mod Yara
pub mod Pipeline
pub mod Database
pub mod Telemetry
pub mod Socket
pub mod Samples
mod Tests
pub mod Config

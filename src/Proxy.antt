-- ===== src/Proxy.antt =====
-- The reverse proxy in front of a web server, waf-proxy/main.py.
pub mod Defs
pub mod Handle
pub mod Headers
pub mod Forwarded
mod Tests

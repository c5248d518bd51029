-- ===== src/Wiring.antt =====
-- backend/src/adapters/transport/handlers/http.py, health.py, factory.py and builders.py.
pub mod Retry
pub mod Checks
pub mod Bootstrap
pub mod Checksum

-- ===== src/Ports.antt =====
-- backend/src/ports: the data that the layers of the backend exchange.
pub mod Ingestion
pub mod Health

-- ===== src/Domain.antt =====
-- backend/src/domain: models and domain services.
pub mod Models
pub mod Sources
pub mod Freshness
pub mod Recovery

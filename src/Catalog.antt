-- ===== src/Catalog.antt =====
-- backend/src/application/source_catalog.py: the catalog of sources and its mutations.
pub mod Alias
pub mod Service
pub mod Quarantine

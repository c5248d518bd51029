-- ===== src/Tests.antt =====
-- Runs of the definitions at concrete data, and the theorems at inputs that meet their hypotheses.
mod Audit
mod Metrics
mod Init
mod Catalog
mod Domain
mod Reindex
mod Health
mod Server
mod Query
mod Framing
mod Chunking
mod Offline
mod Quarantine
mod Storage
mod Router
mod Engine
mod Launcher
mod Clients
mod Wiring

-- ===== src/Reindex.antt =====
-- `ReindexService` of backend/src/application/reindex_service.py. A run is a function from what it is
-- composed of to its result and the effects it had, in their order. The trace sections are left out.
pub mod State
pub mod Source
pub mod Run
pub mod Totals
pub mod Saves
pub mod Ends
pub mod Closes
pub mod Told
pub mod Bounds
pub mod Percent
pub mod Built
pub mod Kept
pub mod Current
pub mod Chunked

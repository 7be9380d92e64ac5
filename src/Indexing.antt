-- ===== src/Indexing.antt =====
-- Indexing into LightRAG: backend/indexing.
pub mod Calls
pub mod Versions
pub mod Provenance
pub mod Service
pub mod Samples
mod Tests

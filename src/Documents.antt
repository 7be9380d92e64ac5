-- ===== src/Documents.antt =====
-- The documents: backend/documents over the tables of migrations/versions.
pub mod Models
pub mod Db
pub mod World
pub mod Repository
pub mod SourceService
mod Tests

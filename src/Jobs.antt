-- ===== src/Jobs.antt =====
-- The durable jobs: backend/jobs and the jobs table of migrations/versions.
pub mod Models
pub mod Rows
pub mod Repository
mod Tests

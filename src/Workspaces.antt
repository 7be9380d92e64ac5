-- ===== src/Workspaces.antt =====
-- Workspaces and their maintenance: backend/workspaces and backend/maintenance.
pub mod Repository
pub mod Reindex
mod Tests

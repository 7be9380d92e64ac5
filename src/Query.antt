-- ===== src/Query.antt =====
-- Queries of a workspace: backend/query and backend/api/query.py.
pub mod Service
pub mod Sources
pub mod Request
mod Tests

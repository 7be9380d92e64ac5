-- ===== src/Worker.antt =====
-- The worker: backend/worker.
pub mod Locks
pub mod Runner
pub mod Service
mod Tests

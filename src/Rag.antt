-- ===== src/Rag.antt =====
-- The LightRAG runtimes of the application: backend/rag.
pub mod Registry
mod Tests

-- ===== src/Embeddings.antt =====
-- The client of the embedding endpoint: backend/embeddings.
pub mod Client
mod Tests

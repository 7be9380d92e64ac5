-- ===== src/Parsers.antt =====
-- The parsers of documents: backend/parsers.
pub mod Models
pub mod Intervals
pub mod TreeSitter
pub mod Registry
pub mod PlainText
pub mod Markdown
pub mod Sources
mod Tests

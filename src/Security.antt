-- ===== src/Security.antt =====
-- Identities, permissions and the access policy: backend/security.
pub mod Models
pub mod DemoOwner
mod Tests

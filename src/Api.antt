-- ===== src/Api.antt =====
-- The HTTP interface: backend/api. A handler is an action that returns its response or raises; an
-- HTTPException is `http_error` of its status.
pub mod Access
pub mod Uploads
pub mod Documents
pub mod Workspaces
mod Tests

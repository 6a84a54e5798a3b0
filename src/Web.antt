-- ===== src/Web.antt =====
-- The web interface: authentication, auth/auth.go, and the hub of the websocket clients,
-- web/websocket.go.
pub mod Auth
pub mod Admission
pub mod Hub
pub mod Channels
pub mod Safe
mod Tests

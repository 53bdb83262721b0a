-- ===== src/Web.antt =====
-- The websocket server of app/zmux/ws_server.py.
pub mod Socket
pub mod Frame
pub mod Server
pub mod Handshake
pub mod Messages
pub mod Tests

-- ===== src/Rest.antt =====
-- The REST back end: app/zmux/server.py, with the token of app/zmux/security.py and the session of
-- app/zmux/terminal.py.
pub mod Token
pub mod Session
pub mod Api
pub mod Exec
pub mod Serve
pub mod Ports
mod Tests

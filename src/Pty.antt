-- ===== src/Pty.antt =====
-- app/zmux/pty_session.py: one interactive terminal session.
pub mod Control
pub mod Terminal
pub mod Editor
pub mod Session
pub mod Faithful
pub mod TypeAhead
pub mod Worker
mod Tests

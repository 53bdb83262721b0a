-- ===== src/Zpip.antt =====
-- The package manager of app/zmux/zpip.py.
pub mod Names
pub mod Wheel
pub mod Modules
pub mod Catalog
pub mod Disk
pub mod Store
pub mod Install
pub mod Search
pub mod Dispatch
pub mod Tests

-- ===== src/Instance.antt =====
-- `class instance`, the daemon's state and the calls that other parts make: src/instance/*.cpp.
pub mod Db
pub mod Users
pub mod Auth
pub mod Push
pub mod Readings
pub mod Network
pub mod Devices

-- ===== src/Message.antt =====
-- The JSON messages between a client and the daemon: src/message.
pub mod Json
pub mod Types
pub mod User
pub mod Rights

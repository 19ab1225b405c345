-- ===== src/Server.antt =====
-- The server of a node, internal/server.
pub mod Types
pub mod Forward
pub mod Writes
pub mod Reads
pub mod Pops
pub mod Members
pub mod Service
pub mod Commands

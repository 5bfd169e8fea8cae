-- ===== src/Mcp.antt =====
-- internal/mcp: the server that agents talk to.
pub mod Server
pub mod Json
pub mod Arguments
pub mod Daemon
pub mod Tools
pub mod Schema
pub mod Handler
pub mod Token

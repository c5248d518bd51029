-- ===== src/Transport.antt =====
-- backend/src/adapters/transport: requests over the socket, and their routing.
pub mod Errors
pub mod Hooks
pub mod Index
pub mod Server
pub mod Framing
pub mod Serialize
pub mod Ports
pub mod Stream
pub mod Router

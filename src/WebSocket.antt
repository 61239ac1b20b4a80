-- ===== src/WebSocket.antt =====
-- crates/rsproxy-engine/src/proxy/websocket_frame.rs and websocket.rs: WebSocket frames, the two
-- ways of reading them, and what a tunnel forwards and records.
pub mod Frame
pub mod Prefix
pub mod Parsed
pub mod Decoder
pub mod Read
pub mod Wire
pub mod Record
pub mod Tunnel
pub mod Copy
mod Tests

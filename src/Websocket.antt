-- ===== src/Websocket.antt =====
-- src/internal/websocket.
pub mod Frame
pub mod Connection
pub mod Rooms
pub mod Heartbeat
pub mod Compression
pub mod Handshake
mod Tests

-- ===== src/Websocket/Connection.antt =====
-- src/internal/websocket/connection.ts: one `KenoWebSocket` over a raw socket.
pub mod State
pub mod Outgoing
pub mod Incoming
pub mod Steps
pub mod Rounds
pub mod Chunks
pub mod Closing
pub mod LateData
pub mod Messages

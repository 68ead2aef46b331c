-- ===== src/Client.antt =====
-- src/internal/client.
pub mod Retry
pub mod Execution
pub mod Urls
pub mod Signals
pub mod Sockets

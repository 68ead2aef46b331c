-- ===== src/Http.antt =====
-- src/internal/http.
pub mod Paths
pub mod RouteTree
pub mod Static
pub mod Matching
pub mod Router
pub mod Body
pub mod Response
pub mod Application
mod Tests

-- ===== src/Concurrency.antt =====
-- src/internal/concurrency.
pub mod WorkerPool
pub mod ThreadCluster
mod Tests

-- ===== src/Shared.antt =====
-- src/internal/shared.
pub mod SafeJson
pub mod Cookies
pub mod Sizes

-- ===== src/Common.antt =====
-- The shared utilities of the backend (backend/src/common and backend/src/realtime).
pub mod Breaker
pub mod Pagination
pub mod RateLimit
pub mod Retry
pub mod Stroops

-- ===== src/Http.antt =====
-- The HTTP part, src/http.
pub mod Texts
pub mod RequestStats
pub mod Server
pub mod ThreadPool
pub mod Metrics

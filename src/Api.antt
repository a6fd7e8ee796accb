-- ===== src/Api.antt =====
-- The HTTP API of apps/shortlink_server: handlers that take a request and give a response.
pub mod Tests
pub mod Json
pub mod Origin
pub mod Auth
pub mod Limiter
pub mod Reading
pub mod Links
pub mod Redirect
pub mod Statistics
pub mod Routes

-- ===== src/ShortLink.antt =====
-- The short-link application: apps/shortlink_server.
mod Tests
pub mod Metrics
pub mod Record
pub mod Timestamp
pub mod Repository
pub mod Base62
pub mod Memory
pub mod MySql
pub mod Cache
pub mod CachedRepository
pub mod Service

-- ===== src/Account.antt =====
-- Users and their sessions: the authentication code of apps/shortlink_server.
pub mod Repository
pub mod Memory
pub mod Service

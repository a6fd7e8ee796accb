-- ===== src/Http.antt =====
-- The HTTP library of HttpServer/: requests, their parser, and the parts behind it.
pub mod Request
pub mod Response
pub mod Context

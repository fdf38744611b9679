-- ===== src/Middleware.antt =====
-- pkg/middleware: the inbound and outbound middlewares, a child for each package.
pub mod Handler
pub mod Auth
pub mod Cors
pub mod Ratelimit
pub mod Retry
pub mod World
pub mod Logid
pub mod Observe
pub mod Timeout

-- ===== src/Middleware.antt =====
-- internal/middleware: the handlers that stand before those of the routes.
pub mod Auth
pub mod RateLimit
pub mod Gate
pub mod Limits
pub mod Users
pub mod Tests

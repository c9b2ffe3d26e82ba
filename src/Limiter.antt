-- ===== src/Limiter.antt =====
-- The rate limiter of internal/middleware: its configurations and the Lua script that Redis runs.
pub mod Config
pub mod Script
pub mod Store
pub mod Bound
pub mod Burst
pub mod Expiry
pub mod Ticking
mod Tests

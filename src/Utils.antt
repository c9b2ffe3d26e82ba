-- ===== src/Utils.antt =====
-- internal/utils: transactions.
pub mod Tx
pub mod Atomic
pub mod Calm
mod Tests

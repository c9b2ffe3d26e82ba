-- ===== src/System.antt =====
-- The whole system over time.
pub mod Tables
pub mod Owners
pub mod Keeps
pub mod History
pub mod Invariant
pub mod Answers
pub mod Done
pub mod Users
pub mod Accounts
pub mod Whole
pub mod Backed
pub mod Finishes
pub mod Progress
mod Tests

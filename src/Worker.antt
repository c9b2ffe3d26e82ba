-- ===== src/Worker.antt =====
-- internal/worker: the loop of a worker, and the work of a task.
pub mod Proc
pub mod Loop
pub mod Settle
pub mod Done
pub mod Touched
pub mod Progress
pub mod Retry
pub mod Messages
pub mod Start
pub mod Pool
mod Tests

-- ===== src/Task.antt =====
-- internal/task: the task model, its repository, its service and its controller.
pub mod Model
pub mod Repository
pub mod Marks
pub mod Body
pub mod Service
pub mod Caching
pub mod Through
pub mod Reads
pub mod Queries
pub mod Entries
pub mod Fresh
pub mod Listing
pub mod Stale
pub mod Creates
pub mod Grows
pub mod Access
pub mod Pending
pub mod Controller
pub mod Calm
pub mod Tests

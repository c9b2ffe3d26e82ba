-- ===== src/Cmd.antt =====
-- cmd: the two main programs. The driver, the client libraries and the web server are not part of
-- the repository: their calls are parameters, on one state of the process.
pub mod Api
pub mod Workers
pub mod Started
pub mod Closes
mod Tests

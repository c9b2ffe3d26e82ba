-- ===== src/Queue.antt =====
-- RabbitMQ as the program uses it, and internal/queue. The client library and the broker are not
-- part of the repository: their calls are parameters.
pub mod Message
pub mod Channel
pub mod Connect
pub mod Ready
mod Tests

-- ===== src/Queue/Channel.antt =====
-- A channel of RabbitMQ, as internal/worker/worker.go uses it.
use async_task_orchestrator.Prelude.{ℕ, Bool}
use async_task_orchestrator.Go.{M}
use async_task_orchestrator.Queue.Message.{Publishing}

-- *amqp.Channel: `ack tag`, `nack tag requeue` (both with multiple = false) and `publish`.
pub record Channel : Type 1 where
  pub Chan : Type 0
  pub ack : ℕ → M Chan (Unit {0})
  pub nack : ℕ → Bool → M Chan (Unit {0})
  pub publish : Publishing → M Chan (Unit {0})

-- ===== src/Queue/Connect.antt =====
-- internal/queue/rabbitmq.go: connecting with retries, channels and queues.
use async_task_orchestrator.Queue.Message.{Publishing}
use async_task_orchestrator.Prelude.{ℕ, zero, suc, ◌+◌, String, Bool, true, false}
use async_task_orchestrator.Go.{wrap, M, pure, raise, throw, handle}

-- amqp.Dial, conn.Channel, ch.QueueDeclare, ch.Publish to the default exchange and ch.Close of the
-- client library, over a state `S` of the process and the broker; `sleep` is time.Sleep in seconds.
pub record Amqp (S : Type 0) : Type 1 where
  pub Connection : Type 0
  pub Ch : Type 0
  pub dial : String → M S Connection
  pub channel : Connection → M S Ch
  pub queue_declare : Ch → String → Bool → Bool → Bool → Bool → M S (Unit {0})
  pub publish : Ch → Publishing → M S (Unit {0})
  pub close : Ch → M S (Unit {0})
  pub sleep : ℕ → S → S

module _ {S : Type 0} (a : Amqp S) where
  open a use {Connection, Ch, dial, channel, queue_declare, sleep}

  -- The loop of SetupRabbitMQ: `left` rounds are left, `i` have been made, and `last` is the error
  -- of the last of them. log.Fatalf ends the process.
  unfoldable pub connect : String → ℕ → ℕ → M S Connection
  connect url zero i = throw "Failed to connect to RabbitMQ"
  connect url (suc left) i =
      let again = connect url left (i + 1) in
      handle (dial url) pure (λ e s. again (sleep (i + 1) s))

  unfoldable pub setup_rabbit_mq : String → M S Connection
  unfolding connect
  setup_rabbit_mq url = connect url 5 0

  unfoldable pub create_channel : Connection → M S Ch
  create_channel conn =
      handle (channel conn) pure (λ e. raise (wrap "failed to open a channel: " e))

  -- durable, not deleted when unused, not exclusive, no no-wait
  unfoldable pub declare_queue : Ch → String → M S (Unit {0})
  declare_queue ch queue_name =
      handle (queue_declare ch queue_name true false false false) pure
        (λ e. raise (wrap "failed to declare queue: " e))

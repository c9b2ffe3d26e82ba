-- ===== src/Cmd/Workers.antt =====
-- cmd/worker/main.go. logrus.Fatal ends the process, and no deferred call is made.
use async_task_orchestrator.Prelude.{ℕ, String, List}
use async_task_orchestrator.Go.{M, pure, throw, handle, ◌>>=◌}
use async_task_orchestrator.Config.{load}
use async_task_orchestrator.Db.{Pool, init}
use async_task_orchestrator.Queue.Connect.{Amqp, setup_rabbit_mq, create_channel, declare_queue}
use async_task_orchestrator.Worker.Pool.{worker_ids}

module _ {S : Type 0} (a : Amqp S) where
  -- consumerChannel declares the queue, and is closed.
  unfoldable pub prepare_queue : a.Connection → M S (Unit {0})
  prepare_queue conn =
      handle (create_channel a conn)
        (λ ch.
          handle (declare_queue a ch "task_queue")
            (λ _. handle (a.close ch) pure (λ e. throw "Failed to close RabbitMQ channel"))
            (λ e. throw "Failed to declare RabbitMQ queue"))
        (λ e. throw "Failed to create RabbitMQ channel")

module _ {S : Type 0} (p : Pool S) (a : Amqp S) where
  -- The process at `select {}`, which blocks for good: the workers that it has started, and what
  -- they share.
  pub record Started : Type 0 where
    pub db : p.Handle
    pub conn : a.Connection
    pub ids : List ℕ

  unfoldable pub main : (String → String) → M S Started
  main getenv =
      let cfg = load getenv in
      init p cfg.db >>= λ db. setup_rabbit_mq a cfg.rabbit_mq.url >>= λ conn.
      prepare_queue a conn >>= λ _. pure (record { db = db; conn = conn; ids = worker_ids })

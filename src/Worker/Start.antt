-- ===== src/Worker/Start.antt =====
-- StartWorker of internal/worker/worker.go: its channel, its consumer, and its loop. The client
-- library is not part of the repository: its calls are a parameter.
pub mod Settles
mod Tests
use async_task_orchestrator.Prelude.{ℕ, String, Bool, true, false, Option, List, [], Text}
use async_task_orchestrator.Go.{M, throw, handle, ignoring}
use async_task_orchestrator.Sql.{Database}
use async_task_orchestrator.Queue.Message.{Delivery, Publishing}
use async_task_orchestrator.Queue.Channel.{Channel}
use async_task_orchestrator.Queue.Connect.{Amqp}
use async_task_orchestrator.Task.Model.{TaskPayload}
use async_task_orchestrator.Worker.Loop.{Call, World, run_worker}

-- ch.Qos, ch.Consume, and the acknowledgements of the deliveries of a channel. The deliveries of
-- `consume` are those that its Go channel gives until it is closed.
pub record Consumer (S : Type 0) (a : Amqp S) : Type 1 where
  pub qos : a.Ch → ℕ → ℕ → Bool → M S (Unit {0})
  pub consume : a.Ch → String → String → Bool → Bool → Bool → Bool → M S (List Delivery)
  pub ack : a.Ch → ℕ → M S (Unit {0})
  pub nack : a.Ch → ℕ → Bool → M S (Unit {0})

-- The channel `ch` as the loop uses it.
abbrev pub channel_on : {S : Type 0} (a : Amqp S) → Consumer S a → a.Ch → Channel
channel_on {S} a k ch = record {
  Chan = S;
  ack = k.ack ch;
  nack = k.nack ch;
  publish = a.publish ch;
}

module _ (q : Database) {S : Type 0} (a : Amqp S) (k : Consumer S a) where
  -- The process of the workers: the database, the client library, and the calls so far.
  pub record Process : Type 0 where
    pub db : q.Db
    pub amqp : S
    pub calls : List Call

  abbrev pub on_amqp : {A : Type 0} → M S A → M Process A
  on_amqp m s = let (r, t) = m s.amqp in (r, record s { amqp = t })

  abbrev pub world_of : (ch : a.Ch) → Process → World q (channel_on a k ch)
  world_of ch s = record { db = s.db; chan = s.amqp; calls = s.calls }

  abbrev pub of_world : (ch : a.Ch) → World q (channel_on a k ch) → Process
  of_world ch w = record { db = w.db; amqp = w.chan; calls = w.calls }

  -- `defer close()` around `m`, where the error of `close` is dropped
  abbrev pub deferring : M Process (Unit {0}) → M Process (Unit {0}) → M Process (Unit {0})
  deferring close m s = let (r, s') = m s in ignoring close (λ t. (r, t)) s'

  module _ (unmarshal : Text → Option TaskPayload) where
    -- `for msg := range msgs`
    unfoldable pub consume_all : a.Ch → ℕ → List Delivery → M Process (Unit {0})
    consume_all ch id msgs s =
        let (r, w) = run_worker q (channel_on a k ch) unmarshal id msgs (world_of ch s) in
        (r, of_world ch w)

    -- logrus.Fatalf ends the process, and no deferred call is made.
    unfoldable pub start_worker : a.Connection → ℕ → M Process (Unit {0})
    start_worker conn id =
        handle (on_amqp (a.channel conn))
          (λ ch.
            handle (on_amqp (k.qos ch 1 0 false))
              (λ _.
                handle (on_amqp (k.consume ch "task_queue" "" false false false false))
                  (λ msgs. deferring (on_amqp (a.close ch)) (consume_all ch id msgs))
                  (λ e. throw "Worker failed to start consuming messages"))
              (λ e. throw "Worker failed to set QoS"))
          (λ e. throw "Worker failed to open channel")

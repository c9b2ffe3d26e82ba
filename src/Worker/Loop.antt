-- ===== src/Worker/Loop.antt =====
-- internal/worker/worker.go: what a worker does with a delivery, and its loop over the deliveries.
-- The state of a worker is the database, the channel, and the list of the calls that it has made
-- on the channel, which the program does not keep and the theorems are about.
use async_task_orchestrator.Prelude.{
  ℕ, ℤ, pos, leb_ℤ, ◌+ℤ◌, Bool, true, false, Option, none, some, List, [], ◌∷◌, ◌++◌, if◌then◌else◌,
  Text,
}
use async_task_orchestrator.Go.{
  text, M, Outcome, ok, err, panic, pure, handle, ignoring, ◌>>◌, Error,
}
use async_task_orchestrator.Sql.{Database}
use async_task_orchestrator.Utils.Tx.{with_transaction}
use async_task_orchestrator.Queue.Message.{
  Field, int32, other, Headers, header, set_header, Delivery, Publishing,
}
use async_task_orchestrator.Queue.Channel.{Channel}
use async_task_orchestrator.Task.Model.{TaskPayload}
use async_task_orchestrator.Task.Repository.{mark_processing, mark_success, mark_failed}
use async_task_orchestrator.Worker.Proc.{handle_task}

-- A call on the channel; of a publish also whether it returned nil.
pub data Call : Type 0 where
  acked : ℕ → Call
  nacked : ℕ → Bool → Call
  published : Publishing → Bool → Call

abbrev pub returned_nil : Outcome (Unit {0}) → Bool
returned_nil (ok u) = true
returned_nil (err e) = false
returned_nil (panic x) = false

-- `if count, ok := msg.Headers["x-retry-count"].(int32); ok { retryCount = count }`
unfoldable pub retry_count_of : Option Field → ℤ
retry_count_of none = pos 0
retry_count_of (some (int32 n)) = n
retry_count_of (some (other s)) = pos 0

unfoldable pub retry_count : Option Headers → ℤ
unfolding retry_count_of
retry_count none = pos 0
retry_count (some h) = retry_count_of (header "x-retry-count" h)

-- `headers := amqp.Table{}; if msg.Headers != nil { headers = msg.Headers }`
unfoldable pub own_headers : Option Headers → Headers
own_headers none = []
own_headers (some h) = h

-- The message that republishWithRetry sends.
unfoldable pub republishing : Delivery → ℤ → Publishing
unfolding own_headers set_header
republishing msg retry_count = record {
  routing_key = msg.routing_key;
  content_type = msg.content_type;
  body = msg.body;
  headers = some (set_header "x-retry-count" (int32 retry_count) (own_headers msg.headers));
}

module _ (q : Database) (c : Channel) where
  pub record World : Type 0 where
    pub db : q.Db
    pub chan : c.Chan
    pub calls : List Call

  abbrev pub on_db : {A : Type 0} → M q.Db A → M World A
  on_db m w = let (r, d) = m w.db in (r, record w { db = d })

  abbrev pub on_chan : {A : Type 0} → Call → M c.Chan A → M World A
  on_chan call m w =
      let (r, s) = m w.chan in (r, record w { chan = s; calls = w.calls ++ call ∷ [] })

  -- `if err := m; err != nil { log }` before `continue` or the end of the round
  abbrev pub logged : M World (Unit {0}) → M World (Unit {0})
  logged m = ignoring m (pure tt)

  unfoldable pub ack : ℕ → M World (Unit {0})
  ack tag = on_chan (acked tag) (c.ack tag)

  unfoldable pub nack : ℕ → Bool → M World (Unit {0})
  nack tag requeue = on_chan (nacked tag requeue) (c.nack tag requeue)

  unfoldable pub republish_with_retry : Delivery → ℤ → M World (Unit {0})
  republish_with_retry msg retry_count w =
      let p = republishing msg retry_count in
      let (r, s) = c.publish p w.chan in
      (r, record w { chan = s; calls = w.calls ++ published p (returned_nil r) ∷ [] })

  -- The function of transaction 2.
  unfoldable pub record_result : TaskPayload → Option Error → q.Tx → M q.Db (Unit {0})
  record_result payload none tx = mark_success q tx payload.id "result.txt"
  record_result payload (some e) tx = mark_failed q tx payload.id (text e)

  -- The branch of a failed transaction 2.
  unfoldable pub retry : Delivery → TaskPayload → ℤ → M World (Unit {0})
  retry msg payload count =
      if leb_ℤ (pos 3) count
      then ignoring
          (on_db (with_transaction q (λ tx. mark_failed q tx payload.id "max retries reached")))
          (logged (nack msg.tag false))
      else handle (republish_with_retry msg (count +ℤ pos 1)) (λ _. logged (ack msg.tag))
          (λ _. logged (nack msg.tag false))

  -- From `handleTask` on.
  unfoldable pub work : ℕ → Delivery → TaskPayload → ℤ → M World (Unit {0})
  work worker_id msg payload count =
      handle (on_db (with_transaction q (record_result payload (handle_task payload worker_id))))
        (λ _. logged (ack msg.tag)) (λ _. retry msg payload count)

  -- The body of the loop after json.Unmarshal.
  unfoldable pub deliver : ℕ → Delivery → Option TaskPayload → M World (Unit {0})
  deliver worker_id msg (some payload) =
      handle (on_db (with_transaction q (λ tx. mark_processing q tx payload.id)))
        (λ _. work worker_id msg payload (retry_count msg.headers))
        (λ _. logged (nack msg.tag true))
  deliver worker_id msg none = logged (nack msg.tag false)

  module _ (unmarshal : Text → Option TaskPayload) where
    -- One round of `for msg := range msgs`.
    unfoldable pub handle_delivery : ℕ → Delivery → M World (Unit {0})
    handle_delivery worker_id msg = deliver worker_id msg (unmarshal msg.body)

    -- The loop: it ends when the channel of deliveries is closed.
    unfoldable pub run_worker : ℕ → List Delivery → M World (Unit {0})
    run_worker worker_id [] = pure tt
    run_worker worker_id (msg ∷ msgs) =
        let rest = run_worker worker_id msgs in handle_delivery worker_id msg >> rest

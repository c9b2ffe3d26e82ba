-- ===== src/Worker/Messages.antt =====
-- The messages of internal/task/service.go in the hands of internal/worker/worker.go, with
-- encoding/json between them.
use mathlib.Core.Path.{subst}
use async_task_orchestrator.Prelude.{
  some-injective, ℕ, Bool, true, false, if◌then◌else◌, ◌≡◌, refl, sym, ap, ◌∙◌, inl, inr, none,
  some, [], ◌∷◌, ◌++◌, codes,
}
use async_task_orchestrator.Go.{Outcome-cases, ok}
use async_task_orchestrator.Fmt.RoundTrip.{IsInt}
use async_task_orchestrator.Sql.{Database, Laws}
use async_task_orchestrator.Sql.Tables.{Task}
use async_task_orchestrator.Utils.Calm.{CalmDatabase}
use async_task_orchestrator.Cache.{RedisClient}
use async_task_orchestrator.Queue.Message.{Delivery}
use async_task_orchestrator.Queue.Channel.{Channel}
use async_task_orchestrator.Queue.Connect.{Amqp}
use async_task_orchestrator.Task.Model.{TaskPayload}
use async_task_orchestrator.Task.Service.{task_message}
use async_task_orchestrator.Json.Payload.{unmarshal_payload}
use async_task_orchestrator.Json.Quotes.{all_carried}
use async_task_orchestrator.Json.RoundTrip.{unmarshal_payload-task_body}
use async_task_orchestrator.Worker.Proc.{handle_task}
use async_task_orchestrator.Worker.Loop.{acked, nacked, World, nack, deliver, handle_delivery}
use async_task_orchestrator.Worker.Settle.{CalmChannel}
use async_task_orchestrator.Worker.Done.{Finished, acknowledged-Finished}

-- The payload of a task.
abbrev pub payload_of : Task → TaskPayload
payload_of t = record { id = t.id; user_id = t.user_id; task_type = t.task_type }

module _ (q : Database) (r : RedisClient) {B : Type 0} (a : Amqp B) (is_print : ℕ → Bool) where
  pub decoded :
      (t : Task)
      → IsInt t.id
      → IsInt t.user_id
      → unmarshal_payload (task_message q r a is_print t).body
        ≡ (if all_carried is_print (codes t.task_type) then some (payload_of t) else none)
  unfolding task_message
  decoded t h k = unmarshal_payload-task_body is_print t.id t.user_id t.task_type h k

  module _ (c : Channel) (calm : CalmDatabase q) (calm_channel : CalmChannel c)
      (laws : Laws q) where
    open laws use {committed}

    -- If no call panics, and the text of the task's type is one that `%q` and JSON carry, a worker
    -- that acknowledges the message of a task, with no copy sent first, has finished the row of
    -- that task: SUCCESS if its type is known to the worker, and otherwise FAILED.
    pub message-Finished :
        (t : Task) (id : ℕ) (msg : Delivery) (w : World q c)
        → IsInt t.id
        → IsInt t.user_id
        → all_carried is_print (codes t.task_type) ≡ true
        → msg.body ≡ (task_message q r a is_print t).body
        → (handle_delivery q c unmarshal_payload id msg w).1.calls ≡ w.calls ++ acked msg.tag ∷ []
        → Finished t.id
            (handle_task (payload_of t) id)
            (committed w.db).tasks
            (committed (handle_delivery q c unmarshal_payload id msg w).1.db).tasks
    message-Finished t id msg w h k carried same acked_only =
        let (payload, read, finished) =
          acknowledged-Finished q c laws calm calm_channel unmarshal_payload id msg w acked_only in
        let e : payload ≡ payload_of t =
          some-injective (sym read ∙ ap unmarshal_payload same ∙ decoded t h k ∙ (rw carried)) in
        subst
          (λ p.
            Finished p.id (handle_task p id) (committed w.db).tasks
              (committed (handle_delivery q c unmarshal_payload id msg w).1.db).tasks)
          e finished

  module _ (c : Channel) (calm_channel : CalmChannel c) where
    -- If no call on the channel panics, the message of a task whose type is a text that `%q` and
    -- JSON do not carry, with an identity and a user of 64 bits, is rejected for good, and the
    -- database is not touched: the row of the task stays as it is.
    pub message_dropped :
        (t : Task) (id : ℕ) (msg : Delivery) (w : World q c)
        → IsInt t.id
        → IsInt t.user_id
        → all_carried is_print (codes t.task_type) ≡ false
        → msg.body ≡ (task_message q r a is_print t).body
        → let (result, w') = handle_delivery q c unmarshal_payload id msg w in
          (result ≡ ok tt) × (w'.calls ≡ w.calls ++ nacked msg.tag false ∷ []) × (w'.db ≡ w.db)
    unfolding handle_delivery deliver nack
    message_dropped t id msg w h k other same =
        let unread : unmarshal_payload msg.body ≡ none =
          ap unmarshal_payload same ∙ decoded t h k ∙ (rw other) in
        rw unread (elim (Outcome-cases (c.nack msg.tag false w.chan).0) [
          | inl (u, done) ↦ (rw done refl, rw done refl, rw done refl)
          | inr (inl (e, failed)) ↦ (rw failed refl, rw failed refl, rw failed refl)
          | inr (inr (p, panicked)) ↦ absurd (calm_channel.nack msg.tag false w.chan p panicked)
        ])

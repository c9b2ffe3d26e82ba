-- ===== src/Worker/Progress.antt =====
-- The round of internal/worker/worker.go in which nothing fails.
use async_task_orchestrator.Prelude.{ℕ, ◌≡◌, refl, inl, inr, Option, some, [], ◌∷◌, ◌++◌, Text}
use async_task_orchestrator.Go.{Outcome-cases, ok}
use async_task_orchestrator.Sql.{Database}
use async_task_orchestrator.Utils.Tx.{with_transaction}
use async_task_orchestrator.Queue.Message.{Delivery}
use async_task_orchestrator.Queue.Channel.{Channel}
use async_task_orchestrator.Task.Model.{TaskPayload}
use async_task_orchestrator.Task.Repository.{mark_processing}
use async_task_orchestrator.Worker.Proc.{handle_task}
use async_task_orchestrator.Worker.Loop.{
  acked, World, ack, logged, record_result, work, deliver, handle_delivery,
}
use async_task_orchestrator.Worker.Settle.{CalmChannel}

module _ (q : Database) (c : Channel) where
  -- Both transactions of a round for this payload succeed.
  pub record Commits (id : ℕ) (payload : TaskPayload) (d : q.Db) : Type 0 where
    pub first : (with_transaction q (λ tx. mark_processing q tx payload.id) d).0 ≡ ok tt
    pub second :
        (with_transaction q
          (record_result q c payload (handle_task payload id))
          (with_transaction q (λ tx. mark_processing q tx payload.id) d).1).0
        ≡ ok tt

  module _ (calm_channel : CalmChannel c) where
    ack-calls :
        (tag : ℕ) (w : World q c)
        → ((logged q c (ack q c tag) w).0 ≡ ok tt)
          × ((logged q c (ack q c tag) w).1.calls ≡ w.calls ++ acked tag ∷ [])
    unfolding ack
    ack-calls tag w = elim (Outcome-cases (c.ack tag w.chan).0) [
      | inl (u, done) ↦ (rw done refl, rw done refl)
      | inr (inl (e, failed)) ↦ (rw failed refl, rw failed refl)
      | inr (inr (p, panicked)) ↦ absurd (calm_channel.ack tag w.chan p panicked)
    ]

    -- When no call on the channel panics, and both transactions of the round for a message with a
    -- payload succeed, whether the work of the task succeeds or not, then the round ends, and its
    -- one call is the acknowledgement of the message.
    pub handle_delivery-acked :
        (unmarshal : Text → Option TaskPayload) (id : ℕ) (msg : Delivery) (payload : TaskPayload)
        (w : World q c)
        → unmarshal msg.body ≡ some payload
        → Commits id payload w.db
        → ((handle_delivery q c unmarshal id msg w).0 ≡ ok tt)
          × ((handle_delivery q c unmarshal id msg w).1.calls ≡ w.calls ++ acked msg.tag ∷ [])
    unfolding handle_delivery deliver work
    handle_delivery-acked unmarshal id msg payload w read commits =
        rw (read, commits.first, commits.second) (ack-calls msg.tag _)

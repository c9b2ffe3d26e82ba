-- ===== src/Worker/Touched/Rounds.antt =====
-- What a round of a worker (internal/worker/worker.go) may do to the tables, whatever fails or
-- panics.
use async_task_orchestrator.Prelude.{
  ℕ, ℤ, pos, leb_ℤ, ◌+ℤ◌, Bool, Bool-cases, true, false, String, ◌≡◌, refl, ◌∙◌, inl, inr, Option,
  none, some, Text,
}
use async_task_orchestrator.Go.{Error, text, Outcome-cases, M, handle, ignoring}
use async_task_orchestrator.Sql.{Database, Laws}
use async_task_orchestrator.Utils.Tx.{with_transaction}
use async_task_orchestrator.Queue.Message.{Delivery}
use async_task_orchestrator.Queue.Channel.{Channel}
use async_task_orchestrator.Task.Model.{TaskPayload}
use async_task_orchestrator.Task.Repository.{mark_processing, mark_success, mark_failed}
use async_task_orchestrator.Worker.Proc.{handle_task}
use async_task_orchestrator.Worker.Loop.{
  World, on_db, logged, ack, nack, republish_with_retry, record_result, retry, work, deliver,
  handle_delivery, retry_count,
}
use async_task_orchestrator.Worker.Touched.{
  Touched, TouchAll-refl, TouchAll-trans, processing-Marking, success-Marking, failed-Marking,
  update-Touched,
}

module _ (q : Database) (laws : Laws q) (key : ℤ) (c : Channel) where
  open laws use {committed}

  -- The call touches that row at most.
  abbrev pub Touches : {A : Type 0} → M (World q c) A → Type 0
  Touches m = (w : World q c) → Touched key (committed w.db) (committed (m w).1.db)

  untouched : (w : World q c) → Touched key (committed w.db) (committed w.db)
  untouched w = (TouchAll-refl key (committed w.db).tasks, refl)

  Touches-handle :
      {A B : Type 0} (m : M (World q c) A) (f : A → M (World q c) B) (g : Error → M (World q c) B)
      → Touches m
      → ((a : A) → Touches (f a))
      → ((e : Error) → Touches (g e))
      → Touches (handle m f g)
  Touches-handle m f g h k l w = elim (Outcome-cases (m w).0) [
    | inl (a, done) ↦ rw done (joined w (m w).1 (f a (m w).1).1 (h w) (k a (m w).1))
    | inr (inl (e, failed)) ↦ rw failed (joined w (m w).1 (g e (m w).1).1 (h w) (l e (m w).1))
    | inr (inr (p, failed)) ↦ rw failed (h w)
  ]
    where
      joined :
          (w v u : World q c)
          → Touched key (committed w.db) (committed v.db)
          → Touched key (committed v.db) (committed u.db)
          → Touched key (committed w.db) (committed u.db)
      joined w v u (a, e) (b, e') = (
        TouchAll-trans key (committed w.db).tasks (committed v.db).tasks (committed u.db).tasks a b,
        e' ∙ e,
      )

  processing-Touches : Touches (on_db q c (with_transaction q (λ tx. mark_processing q tx key)))
  unfolding mark_processing
  processing-Touches w = update-Touched q laws key _ w.db (processing-Marking key)

  success-Touches :
      (file : String) → Touches (on_db q c (with_transaction q (λ tx. mark_success q tx key file)))
  unfolding mark_success
  success-Touches file w = update-Touched q laws key _ w.db (success-Marking key file)

  failed-Touches :
      (message : String)
      → Touches (on_db q c (with_transaction q (λ tx. mark_failed q tx key message)))
  unfolding mark_failed
  failed-Touches message w = update-Touched q laws key _ w.db (failed-Marking key message)

  settled-Touches : (tag : ℕ) → Touches (logged q c (ack q c tag))
  unfolding ack
  settled-Touches tag = Touches-handle _ _ _ untouched (λ a. untouched) (λ e. untouched)

  rejected-Touches : (tag : ℕ) (requeue : Bool) → Touches (logged q c (nack q c tag requeue))
  unfolding nack
  rejected-Touches tag requeue = Touches-handle _ _ _ untouched (λ a. untouched) (λ e. untouched)

  sent-Touches : (msg : Delivery) (n : ℤ) → Touches (republish_with_retry q c msg n)
  unfolding republish_with_retry
  sent-Touches msg n w = untouched w

  result-Touches :
      (payload : TaskPayload) (r : Option Error)
      → payload.id ≡ key
      → Touches (on_db q c (with_transaction q (record_result q c payload r)))
  unfolding record_result
  result-Touches payload none e w = rw e (success-Touches "result.txt" w)
  result-Touches payload (some x) e w = rw e (failed-Touches (text x) w)

  given_up-Touches :
      (tag : ℕ)
      → Touches (
          ignoring
            (on_db q c (with_transaction q (λ tx. mark_failed q tx key "max retries reached")))
            (logged q c (nack q c tag false)))
  given_up-Touches tag =
      Touches-handle _ _ _ (failed-Touches "max retries reached") (λ a. rejected-Touches tag false)
        (λ x. rejected-Touches tag false)

  copied-Touches :
      (msg : Delivery) (n : ℤ)
      → Touches (
          handle
            (republish_with_retry q c msg n)
            (λ _. logged q c (ack q c msg.tag))
            (λ _. logged q c (nack q c msg.tag false)))
  copied-Touches msg n =
      Touches-handle _ _ _ (sent-Touches msg n) (λ a. settled-Touches msg.tag)
        (λ x. rejected-Touches msg.tag false)

  retry-Touches :
      (msg : Delivery) (payload : TaskPayload) (n : ℤ)
      → payload.id ≡ key
      → Touches (retry q c msg payload n)
  unfolding retry
  retry-Touches msg payload n e w = elim (Bool-cases (leb_ℤ (pos 3) n)) [
    | inl last ↦ rw (last, e) (given_up-Touches msg.tag w)
    | inr again ↦ rw again (copied-Touches msg (n +ℤ pos 1) w)
  ]

  work-Touches :
      (id : ℕ) (msg : Delivery) (payload : TaskPayload) (n : ℤ)
      → payload.id ≡ key
      → Touches (work q c id msg payload n)
  unfolding work
  work-Touches id msg payload n e =
      Touches-handle _ _ _ (result-Touches payload (handle_task payload id) e)
        (λ a. settled-Touches msg.tag) (λ x. retry-Touches msg payload n e)

  started-Touches :
      (id : ℕ) (msg : Delivery) (payload : TaskPayload)
      → payload.id ≡ key
      → Touches (
          handle
            (on_db q c (with_transaction q (λ tx. mark_processing q tx key)))
            (λ _. work q c id msg payload (retry_count msg.headers))
            (λ _. logged q c (nack q c msg.tag true)))
  started-Touches id msg payload e =
      Touches-handle _ _ _ processing-Touches
        (λ a. work-Touches id msg payload (retry_count msg.headers) e)
        (λ x. rejected-Touches msg.tag true)

module _ (q : Database) (laws : Laws q) (c : Channel) (unmarshal : Text → Option TaskPayload) where
  open laws use {committed}

  -- Whatever fails or panics in a round of a worker for a message with a payload, no row of a task
  -- is added or removed, the users stay as they are, and only the row with the payload's identity
  -- can change: it stays the same task, of the same user and type, and if it is changed, its
  -- status is then PROCESSING, SUCCESS or FAILED.
  pub handle_delivery-Touched :
      (id : ℕ) (msg : Delivery) (payload : TaskPayload) (w : World q c)
      → unmarshal msg.body ≡ some payload
      → Touched payload.id
          (committed w.db)
          (committed (handle_delivery q c unmarshal id msg w).1.db)
  unfolding handle_delivery deliver
  handle_delivery-Touched id msg payload w h =
      rw h (started-Touches q laws payload.id c id msg payload refl w)

-- ===== src/Worker/Settle.antt =====
-- The calls on the channel that a worker of internal/worker/worker.go makes for a delivery.
use async_task_orchestrator.Prelude.{
  ◌≢◌, ◌∙◌, none, some, refl, sym, ℕ, pos, leb_ℤ, ◌+ℤ◌, Bool, false, List, [], ◌∷◌, ◌++◌, ◌≡◌, Text,
  Option, Bool-cases, ◌⊎◌, inl, inr, true,
}
use async_task_orchestrator.Task.Calm.{mark_success-Calm, mark_failed-Calm, mark_processing-Calm}
use async_task_orchestrator.Go.{text, ok, M, Error, Outcome-cases, Outcome, handle}
use mathlib.Core.List.{append_cancel_left, append_assoc}
use mathlib.Core.Path.{subst}
use async_task_orchestrator.Worker.Proc.{handle_task}
use async_task_orchestrator.Task.Repository.{mark_processing, mark_failed}
use async_task_orchestrator.Utils.Tx.{with_transaction}
use async_task_orchestrator.Task.Model.{TaskPayload}
use async_task_orchestrator.Sql.{Database}
use async_task_orchestrator.Utils.Calm.{Calm, CalmDatabase, with_transaction-Calm}
use async_task_orchestrator.Queue.Message.{Delivery, Publishing}
use async_task_orchestrator.Queue.Channel.{Channel}
use async_task_orchestrator.Worker.Loop.{
  logged, Call, acked, nacked, published, World, ack, nack, republishing, retry_count, retry,
  handle_delivery, work, deliver, republish_with_retry, on_db, record_result,
}

pub record CalmChannel (c : Channel) : Type 0 where
  pub ack : (tag : ℕ) → Calm (c.ack tag)
  pub nack : (tag : ℕ) (requeue : Bool) → Calm (c.nack tag requeue)
  pub publish : (p : Publishing) → Calm (c.publish p)

-- The calls on the channel for a delivery that is not acknowledged as it came: it is rejected with
-- or without requeueing; or its republished copy, with one more retry and only below three, is
-- sent, and then it is acknowledged, or rejected if that publish returned an error.
pub data Unfinished (msg : Delivery) (before now : List Call) : Type 0 where
  rejected :
      (requeue : Bool) → now ≡ before ++ nacked msg.tag requeue ∷ [] → Unfinished msg before now
  retried :
      leb_ℤ (pos 3) (retry_count msg.headers) ≡ false
      → now
        ≡ before
          ++ published (republishing msg (retry_count msg.headers +ℤ pos 1)) true
            ∷ acked msg.tag
            ∷ []
      → Unfinished msg before now
  not_retried :
      leb_ℤ (pos 3) (retry_count msg.headers) ≡ false
      → now
        ≡ before
          ++ published (republishing msg (retry_count msg.headers +ℤ pos 1)) false
            ∷ nacked msg.tag false
            ∷ []
      → Unfinished msg before now

-- The calls for any delivery.
pub data Settled (msg : Delivery) (before now : List Call) : Type 0 where
  acknowledged : now ≡ before ++ acked msg.tag ∷ [] → Settled msg before now
  unfinished : Unfinished msg before now → Settled msg before now

-- An unfinished delivery has other calls than one acknowledgement.
pub Unfinished-not_acked :
    (msg : Delivery) (before now : List Call)
    → Unfinished msg before now
    → now ≢ before ++ acked msg.tag ∷ []
Unfinished-not_acked msg before now (rejected r e) h =
    cc (append_cancel_left before _ _ (sym e ∙ h))
Unfinished-not_acked msg before now (retried l e) h = cc (append_cancel_left before _ _ (sym e ∙ h))
Unfinished-not_acked msg before now (not_retried l e) h =
    cc (append_cancel_left before _ _ (sym e ∙ h))

module _ (q : Database) (c : Channel) (calm : CalmDatabase q) (calm_channel : CalmChannel c) where
  abbrev pub Ends : Delivery → List Call → Outcome (Unit {0}) × World q c → Type 0
  Ends msg before (r, w) = (r ≡ ok tt) × Settled msg before w.calls

  abbrev pub Fails : Delivery → List Call → Outcome (Unit {0}) × World q c → Type 0
  Fails msg before (r, w) = (r ≡ ok tt) × Unfinished msg before w.calls

  abbrev pub sent : Delivery → Bool → Call
  sent msg done = published (republishing msg (retry_count msg.headers +ℤ pos 1)) done

  -- The two ways on from a call on the database that does not panic.
  pub handle_db :
      {A : Type 0} (m : M q.Db A) (f : A → M (World q c) (Unit {0}))
      (g : Error → M (World q c) (Unit {0})) (w : World q c)
      → Calm m
      → let w' = record w { db = (m w.db).1 } in
        ((a : A) × (handle (on_db q c m) f g w ≡ f a w'))
        ⊎ ((e : Error) × (handle (on_db q c m) f g w ≡ g e w'))
  handle_db m f g w calm_m = elim (Outcome-cases (m w.db).0) [
    | inl (a, done) ↦ inl (a, rw done)
    | inr (inl (e, failed)) ↦ inr (e, rw failed)
    | inr (inr (p, panicked)) ↦ absurd (calm_m w.db p panicked)
  ]

  ack-Ends :
      (msg : Delivery) (before : List Call) (w : World q c)
      → w.calls ≡ before
      → Ends msg before (logged q c (ack q c msg.tag) w)
  unfolding ack
  ack-Ends msg before w same = elim (Outcome-cases (c.ack msg.tag w.chan).0) [
    | inl (a, done) ↦ rw done (refl, acknowledged (rw same))
    | inr (inl (e, failed)) ↦ rw failed (refl, acknowledged (rw same))
    | inr (inr (p, panicked)) ↦ absurd (calm_channel.ack msg.tag w.chan p panicked)
  ]

  pub nack-Ends :
      (msg : Delivery) (requeue : Bool) (before : List Call) (w : World q c)
      → w.calls ≡ before
      → Fails msg before (logged q c (nack q c msg.tag requeue) w)
  unfolding nack
  nack-Ends msg requeue before w same = elim (Outcome-cases (c.nack msg.tag requeue w.chan).0) [
    | inl (a, done) ↦ rw done (refl, rejected requeue (rw same))
    | inr (inl (e, failed)) ↦ rw failed (refl, rejected requeue (rw same))
    | inr (inr (p, panicked)) ↦ absurd (calm_channel.nack msg.tag requeue w.chan p panicked)
  ]

  -- A rejected or acknowledged copy after the republished message.
  ack_after_sent :
      (msg : Delivery) (before : List Call) (w : World q c)
      → leb_ℤ (pos 3) (retry_count msg.headers) ≡ false
      → w.calls ≡ before ++ sent msg true ∷ []
      → Fails msg before (logged q c (ack q c msg.tag) w)
  unfolding ack
  ack_after_sent msg before w low same = elim (Outcome-cases (c.ack msg.tag w.chan).0) [
    | inl (a, done) ↦ rw done (refl, retried low (rw same (append_assoc before _ _)))
    | inr (inl (e, failed)) ↦ rw failed (refl, retried low (rw same (append_assoc before _ _)))
    | inr (inr (p, panicked)) ↦ absurd (calm_channel.ack msg.tag w.chan p panicked)
  ]

  nack_after_sent :
      (msg : Delivery) (before : List Call) (w : World q c)
      → leb_ℤ (pos 3) (retry_count msg.headers) ≡ false
      → w.calls ≡ before ++ sent msg false ∷ []
      → Fails msg before (logged q c (nack q c msg.tag false) w)
  unfolding nack
  nack_after_sent msg before w low same = elim (Outcome-cases (c.nack msg.tag false w.chan).0) [
    | inl (a, done) ↦ rw done (refl, not_retried low (rw same (append_assoc before _ _)))
    | inr (inl (e, failed)) ↦ rw failed (refl, not_retried low (rw same (append_assoc before _ _)))
    | inr (inr (p, panicked)) ↦ absurd (calm_channel.nack msg.tag false w.chan p panicked)
  ]

  pub retry-Ends :
      (msg : Delivery) (payload : TaskPayload) (w : World q c)
      → Fails msg w.calls (retry q c msg payload (retry_count msg.headers) w)
  unfolding retry republish_with_retry
  retry-Ends msg payload w = elim (Bool-cases (leb_ℤ (pos 3) (retry_count msg.headers))) [
    | inl last ↦ rw last (
        let w' = record w {
          db =
              (with_transaction q (λ tx. mark_failed q tx payload.id "max retries reached") w.db).1;
        } in
        elim (handle_db
          (with_transaction q (λ tx. mark_failed q tx payload.id "max retries reached"))
          (λ _. logged q c (nack q c msg.tag false)) (λ _. logged q c (nack q c msg.tag false)) w
          (with_transaction-Calm q calm _
            (λ tx. mark_failed-Calm q calm tx payload.id "max retries reached"))) [
              | inl (a, e) ↦ subst (Fails msg w.calls) (sym e) (nack-Ends msg false w.calls w' refl)
              | inr (x, e) ↦ subst (Fails msg w.calls) (sym e) (nack-Ends msg false w.calls w' refl)
            ])
    | inr again ↦
        rw again
          (elim (Outcome-cases
            (c.publish (republishing msg (retry_count msg.headers +ℤ pos 1)) w.chan).0) [
              | inl (a, done) ↦ rw done (ack_after_sent msg w.calls _ again refl)
              | inr (inl (e, failed)) ↦ rw failed (nack_after_sent msg w.calls _ again refl)
              | inr (inr (p, panicked)) ↦ absurd (calm_channel.publish _ w.chan p panicked)
            ])
  ]

  pub record_result-Calm :
      (payload : TaskPayload) (r : Option Error) (tx : q.Tx) → Calm (record_result q c payload r tx)
  unfolding record_result
  record_result-Calm payload none tx = mark_success-Calm q calm tx payload.id "result.txt"
  record_result-Calm payload (some e) tx = mark_failed-Calm q calm tx payload.id (text e)

  work-Ends :
      (id : ℕ) (msg : Delivery) (payload : TaskPayload) (w : World q c)
      → Ends msg w.calls (work q c id msg payload (retry_count msg.headers) w)
  unfolding work
  work-Ends id msg payload w =
      elim (handle_db (with_transaction q (record_result q c payload (handle_task payload id)))
        (λ _. logged q c (ack q c msg.tag)) (λ _. retry q c msg payload (retry_count msg.headers)) w
        (with_transaction-Calm q calm _ (record_result-Calm payload (handle_task payload id)))) [
          | inl (a, e) ↦ subst (Ends msg w.calls) (sym e) (ack-Ends msg w.calls _ refl)
          | inr (x, e) ↦
              subst (Ends msg w.calls) (sym e)
                (let f = retry-Ends msg payload _ in (f.0, unfinished f.1))
        ]

  deliver-Ends :
      (o : Option TaskPayload) (id : ℕ) (msg : Delivery) (w : World q c)
      → Ends msg w.calls (deliver q c id msg o w)
  unfolding deliver
  deliver-Ends none id msg w = let f = nack-Ends msg false w.calls w refl in (f.0, unfinished f.1)
  deliver-Ends (some payload) id msg w =
      elim (handle_db (with_transaction q (λ tx. mark_processing q tx payload.id))
        (λ _. work q c id msg payload (retry_count msg.headers))
        (λ _. logged q c (nack q c msg.tag true)) w
        (with_transaction-Calm q calm _ (λ tx. mark_processing-Calm q calm tx payload.id))) [
          | inl (a, e) ↦ subst (Ends msg w.calls) (sym e) (work-Ends id msg payload _)
          | inr (x, e) ↦
              subst (Ends msg w.calls) (sym e)
                (let f = nack-Ends msg true w.calls _ refl in (f.0, unfinished f.1))
        ]

  -- Whatever the database and the channel answer, short of a panic, a delivery is settled exactly
  -- once, with the last call for it.
  pub handle_delivery_settles :
      (unmarshal : Text → Option TaskPayload) (id : ℕ) (msg : Delivery) (w : World q c)
      → let (r, w') = handle_delivery q c unmarshal id msg w in
        (r ≡ ok tt) × Settled msg w.calls w'.calls
  unfolding handle_delivery deliver
  handle_delivery_settles unmarshal id msg w = deliver-Ends (unmarshal msg.body) id msg w

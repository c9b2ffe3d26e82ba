-- ===== src/Worker/Pool/Effects.antt =====
-- What a round of a worker can do to the pool of internal/worker/worker.go's deliveries.
use mathlib.Core.Path.{subst}
use mathlib.Core.List.{append_cancel_left}
use async_task_orchestrator.Prelude.{
  ==_iff, ◌==◌, ℕ, pos, leb_ℤ, ◌+ℤ◌, Bool, true, false, ◌≡◌, refl, sym, Option, List, [], ◌∷◌, ◌++◌,
  Text, All,
}
use async_task_orchestrator.Sql.{Database}
use async_task_orchestrator.Utils.Calm.{CalmDatabase}
use async_task_orchestrator.Queue.Message.{Delivery, Publishing}
use async_task_orchestrator.Queue.Channel.{Channel}
use async_task_orchestrator.Task.Model.{TaskPayload}
use async_task_orchestrator.Worker.Loop.{
  Call, acked, nacked, published, World, handle_delivery, republishing, retry_count,
}
use async_task_orchestrator.Worker.Settle.{
  CalmChannel, Settled, acknowledged, unfinished, rejected, retried, not_retried,
  handle_delivery_settles,
}
use async_task_orchestrator.Worker.Pool.{
  Pool, accept, reject, returned, copies_of, tried, verdict, put, conclude, settle,
}

-- The copy of a delivery that a worker sends.
abbrev pub copy_of : Delivery → Publishing
copy_of d = republishing d (retry_count d.headers +ℤ pos 1)

-- The pool after a round for `d` with those calls.
pub data Effect (d : Delivery) (calls : List Call) (s : Pool) : Pool → Type 0 where
  finishes : calls ≡ acked d.tag ∷ [] → Effect d calls s (record s { finished = d ∷ s.finished })
  requeues : Effect d calls s (record s { ready = returned d ∷ s.ready })
  drops : Effect d calls s (record s { dropped = d ∷ s.dropped })
  copies :
      leb_ℤ (pos 3) (retry_count d.headers) ≡ false
      → Effect d calls s (record s { ready = s.ready ++ copy_of d ∷ [] })
  copies_and_drops :
      leb_ℤ (pos 3) (retry_count d.headers) ≡ false
      → Effect d calls s (record s { ready = s.ready ++ copy_of d ∷ []; dropped = d ∷ s.dropped })
  copies_and_requeues :
      leb_ℤ (pos 3) (retry_count d.headers) ≡ false
      → Effect d calls s (record s { ready = returned d ∷ s.ready ++ copy_of d ∷ [] })

tag_same : (n : ℕ) → (n == n) ≡ true
tag_same n = (==_iff n n).1 refl

module _ (d : Delivery) (s : Pool) where
  verdict-acked : (calls : List Call) → verdict d.tag (acked d.tag ∷ calls) ≡ accept
  unfolding verdict
  verdict-acked calls = rw (tag_same d.tag) refl

  verdict-nacked :
      (requeue : Bool) (calls : List Call)
      → verdict d.tag (nacked d.tag requeue ∷ calls) ≡ reject requeue
  unfolding verdict
  verdict-nacked requeue calls = rw (tag_same d.tag) refl

  acked-Effect :
      (copied settled : Bool)
      → Effect d (acked d.tag ∷ []) s (settle d copied settled (acked d.tag ∷ []) s)
  unfolding settle conclude tried copies_of put
  acked-Effect copied true = rw (verdict-acked []) (finishes refl)
  acked-Effect copied false = requeues

  nacked-Effect :
      (copied settled requeue : Bool)
      → Effect d
          (nacked d.tag requeue ∷ [])
          s
          (settle d copied settled (nacked d.tag requeue ∷ []) s)
  unfolding settle conclude tried copies_of put
  nacked-Effect copied true false = rw (verdict-nacked false []) drops
  nacked-Effect copied true true = rw (verdict-nacked true []) requeues
  nacked-Effect copied false requeue = requeues

  copied-Effect :
      (copied settled : Bool)
      → leb_ℤ (pos 3) (retry_count d.headers) ≡ false
      → Effect d
          (published (copy_of d) true ∷ acked d.tag ∷ [])
          s
          (settle d copied settled (published (copy_of d) true ∷ acked d.tag ∷ []) s)
  unfolding settle conclude tried copies_of put verdict
  copied-Effect true true low = rw (tag_same d.tag) (copies low)
  copied-Effect false true low = rw (tag_same d.tag) (copies low)
  copied-Effect true false low = copies_and_requeues low
  copied-Effect false false low = requeues

  failed-Effect :
      (copied settled : Bool)
      → leb_ℤ (pos 3) (retry_count d.headers) ≡ false
      → Effect d
          (published (copy_of d) false ∷ nacked d.tag false ∷ [])
          s
          (settle d copied settled (published (copy_of d) false ∷ nacked d.tag false ∷ []) s)
  unfolding settle conclude tried copies_of put verdict
  failed-Effect true true low = rw (tag_same d.tag) (copies_and_drops low)
  failed-Effect false true low = rw (tag_same d.tag) drops
  failed-Effect true false low = copies_and_requeues low
  failed-Effect false false low = requeues

  module _ (copied settled : Bool) where
    by_calls :
        (before calls calls' : List Call)
        → before ++ calls ≡ before ++ calls'
        → Effect d calls' s (settle d copied settled calls' s)
        → Effect d calls s (settle d copied settled calls s)
    by_calls before calls calls' e =
        subst (λ cs. Effect d cs s (settle d copied settled cs s))
          (sym (append_cancel_left before _ _ e))

    Settled-Effect :
        (before calls : List Call)
        → Settled d before (before ++ calls)
        → Effect d calls s (settle d copied settled calls s)
    Settled-Effect before calls (acknowledged e) =
        by_calls before calls _ e (acked-Effect copied settled)
    Settled-Effect before calls (unfinished (rejected r e)) =
        by_calls before calls _ e (nacked-Effect copied settled r)
    Settled-Effect before calls (unfinished (retried low e)) =
        by_calls before calls _ e (copied-Effect copied settled low)
    Settled-Effect before calls (unfinished (not_retried low e)) =
        by_calls before calls _ e (failed-Effect copied settled low)

-- A round that only acknowledged the delivery finishes it, when the acknowledgement arrives.
pub settle-acked :
    (d : Delivery) (s : Pool)
    → settle d false true (acked d.tag ∷ []) s ≡ record s { finished = d ∷ s.finished }
unfolding settle conclude tried copies_of put
settle-acked d s = rw (verdict-acked d s []) refl

module _ (q : Database) (c : Channel) (calm : CalmDatabase q) (calm_channel : CalmChannel c) where
  pub handle_delivery-Effect :
      (unmarshal : Text → Option TaskPayload) (i : ℕ) (d : Delivery) (w : World q c)
      (calls : List Call) (copied settled : Bool) (s : Pool)
      → (handle_delivery q c unmarshal i d w).1.calls ≡ w.calls ++ calls
      → Effect d calls s (settle d copied settled calls s)
  handle_delivery-Effect unmarshal i d w calls copied settled s h =
      Settled-Effect d s copied settled w.calls calls (
        subst (Settled d w.calls) h
          (handle_delivery_settles q c calm calm_channel unmarshal i d w).1)

-- What holds of the deliveries that were finished before the round holds of all after it, if it
-- holds of this one when the round only acknowledged it.
pub Effect-All {ℓ} :
    (holds : Delivery → Type ℓ) (d : Delivery) (calls : List Call) (s t : Pool)
    → Effect d calls s t
    → (calls ≡ acked d.tag ∷ [] → holds d)
    → All holds s.finished
    → All holds t.finished
Effect-All holds d calls s t (finishes e) now done = (now e, done)
Effect-All holds d calls s t requeues now done = done
Effect-All holds d calls s t drops now done = done
Effect-All holds d calls s t (copies low) now done = done
Effect-All holds d calls s t (copies_and_drops low) now done = done
Effect-All holds d calls s t (copies_and_requeues low) now done = done

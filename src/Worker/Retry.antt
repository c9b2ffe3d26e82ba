-- ===== src/Worker/Retry.antt =====
-- The retry count that republishWithRetry of internal/worker/worker.go sends along.
use async_task_orchestrator.Prelude.{
  ◌<◌, ℕ, zero, suc, ◌-◌, ◌≤◌, ◌+◌, ℤ, pos, leb_ℤ, ◌+ℤ◌, String, eq_iff, ◌≡◌, ap, ◌∙◌, arith, Bool,
  false, Option, some, List, [], ◌∷◌, ◌++◌, Text,
}
use mathlib.Core.Path.{subst}
use mathlib.Core.List.{append_cancel_left}
use async_task_orchestrator.Sql.{Database}
use async_task_orchestrator.Utils.Calm.{CalmDatabase}
use async_task_orchestrator.Queue.Message.{
  Field, int32, Headers, header, set_header, Delivery, Publishing,
}
use async_task_orchestrator.Queue.Channel.{Channel}
use async_task_orchestrator.Task.Model.{TaskPayload}
use async_task_orchestrator.Worker.Loop.{
  Call, published, World, handle_delivery, republishing, retry_count, retry_count_of, own_headers,
}
use async_task_orchestrator.Worker.Settle.{
  CalmChannel, Settled, acknowledged, unfinished, rejected, retried, not_retried,
  handle_delivery_settles,
}

header-set_self : (k : String) (v : Field) (m : Headers) → header k (set_header k v m) ≡ some v
unfolding header set_header
header-set_self k v [] = ground (arith, eq_iff k k)
header-set_self k v ((j, w) ∷ m) = ground (arith, eq_iff k k, eq_iff j k, header-set_self k v m)

-- What the worker reads from a message is the count that was written to it.
pub retry_count-republishing :
    (msg : Delivery) (n : ℤ) → retry_count (republishing msg n).headers ≡ n
unfolding retry_count republishing
retry_count-republishing msg n =
    ap retry_count_of (header-set_self "x-retry-count" (int32 n) (own_headers msg.headers))

module _ (q : Database) (c : Channel) (calm : CalmDatabase q) (calm_channel : CalmChannel c)
    (unmarshal : Text → Option TaskPayload) where
  Settled-sent :
      (msg : Delivery) (before : List Call) (p : Publishing) (done : Bool) (rest : List Call)
      → Settled msg before (before ++ published p done ∷ rest)
      → (leb_ℤ (pos 3) (retry_count msg.headers) ≡ false)
        × (p ≡ republishing msg (retry_count msg.headers +ℤ pos 1))
  Settled-sent msg before p done rest (acknowledged e) =
      absurd (cc (append_cancel_left before _ _ e))
  Settled-sent msg before p done rest (unfinished (rejected r e)) =
      absurd (cc (append_cancel_left before _ _ e))
  Settled-sent msg before p done rest (unfinished (retried low e)) =
      (low, cc (append_cancel_left before _ _ e))
  Settled-sent msg before p done rest (unfinished (not_retried low e)) =
      (low, cc (append_cancel_left before _ _ e))

  -- `n` times in a row a worker handles the message and publishes a copy, whatever the publish returned, the broker delivers the copy,
  -- and a worker handles that.
  pub data Copies : ℕ → Delivery → Type 0 where
    last : (msg : Delivery) → Copies zero msg
    copy :
        {n : ℕ} {msg' : Delivery} (msg : Delivery) (id : ℕ) (w : World q c) (p : Publishing)
        (done : Bool) (rest : List Call)
        → (handle_delivery q c unmarshal id msg w).1.calls ≡ w.calls ++ published p done ∷ rest
        → msg'.headers ≡ p.headers
        → Copies n msg'
        → Copies (suc n) msg

  count_after :
      (k : ℕ) (msg msg' : Delivery) (id : ℕ) (w : World q c) (p : Publishing) (done : Bool)
      (rest : List Call)
      → (handle_delivery q c unmarshal id msg w).1.calls ≡ w.calls ++ published p done ∷ rest
      → msg'.headers ≡ p.headers
      → retry_count msg.headers ≡ pos k
      → (k < 3) × (retry_count msg'.headers ≡ pos (k + 1))
  count_after k msg msg' id w p done rest sent delivered h =
      let settled = (handle_delivery_settles q c calm calm_channel unmarshal id msg w).1 in
      let (low, e) =
        Settled-sent msg w.calls p done rest (subst (Settled msg w.calls) sent settled) in
      let small : leb_ℤ (pos 3) (pos k) ≡ false = rw h at low in
      let one_more : pos k +ℤ pos 1 ≡ pos (k + 1) = ground arith in
      (
        ground arith,
        ap retry_count delivered
            ∙ ap (λ x. retry_count x.headers) e
            ∙ retry_count-republishing msg (retry_count msg.headers +ℤ pos 1)
            ∙ ap (λ x. x +ℤ pos 1) h
            ∙ one_more,
      )

  -- If no call panics, a message whose retry count is `k` is republished at most `3 - k` times in
  -- a row, so one that comes from the API, with no header, at most three times.
  pub Copies-le :
      (n k : ℕ) (msg : Delivery) → Copies n msg → retry_count msg.headers ≡ pos k → n ≤ 3 - k
  Copies-le n k msg (last m) h = omega arith
  Copies-le (suc n) k msg (copy {n = n'} {msg' = msg'} m id w p done rest sent delivered more) h =
      let (low, count) = count_after k msg msg' id w p done rest sent delivered h in
      let later = Copies-le n' (k + 1) msg' more count in omega arith

-- ===== src/Worker/Pool/Progress.antt =====
-- How a message gets through the pool of internal/worker/worker.go.
use async_task_orchestrator.Prelude.{
  ℕ, ◌≡◌, refl, true, false, Option, some, List, [], ◌∷◌, ◌++◌, Text,
}
use async_task_orchestrator.Sql.{Database}
use async_task_orchestrator.Queue.Message.{Publishing}
use async_task_orchestrator.Queue.Channel.{Channel}
use async_task_orchestrator.Task.Model.{TaskPayload}
use async_task_orchestrator.Worker.Loop.{acked, World}
use async_task_orchestrator.Worker.Settle.{CalmChannel}
use async_task_orchestrator.Worker.Progress.{Commits, handle_delivery-acked}
use mathlib.Core.Path.{subst}
use async_task_orchestrator.Worker.Pool.Effects.{settle-acked}
use async_task_orchestrator.Worker.Pool.{
  Pool, delivered, is_free, worker_ids, is_worker, Reach, delivers, handles, later,
}

module _ (q : Database) (c : Channel) (calm_channel : CalmChannel c)
    (unmarshal : Text → Option TaskPayload) where
  -- From every reachable pool in which a message with a payload waits and a worker is free, when no
  -- call on the channel panics and both transactions of that worker's round succeed, two steps
  -- lead to a pool in which the message is finished, and every other message is where it was.
  pub Reach-finished :
      (s : Pool) (before after : List Publishing) (p : Publishing) (i tag : ℕ)
      (payload : TaskPayload) (w : World q c)
      → Reach q c unmarshal s
      → s.ready ≡ before ++ p ∷ after
      → is_worker i worker_ids ≡ true
      → is_free i s.taken ≡ true
      → unmarshal p.body ≡ some payload
      → Commits q c i payload w.db
      → Reach q c unmarshal
          (record s { ready = before ++ after; finished = delivered tag p ∷ s.finished })
  Reach-finished s before after p i tag payload w reach waits works free read commits =
      let d = delivered tag p in
      let s' = record s { ready = before ++ after } in
      let (done, calls) =
        handle_delivery-acked q c calm_channel unmarshal i d payload w read commits in
      subst (Reach q c unmarshal) (settle-acked d s') (
        later (later reach (delivers before after p i tag waits works free))
          (handles [] s.taken i d w (acked tag ∷ []) false true refl calls))

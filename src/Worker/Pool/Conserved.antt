-- ===== src/Worker/Pool/Conserved.antt =====
-- Where the messages of the pool of internal/worker/worker.go are.
use async_task_orchestrator.Prelude.{ℕ, ◌+◌, ◌≤◌, Option, Text}
use async_task_orchestrator.Sql.{Database}
use async_task_orchestrator.Utils.Calm.{CalmDatabase}
use async_task_orchestrator.Queue.Channel.{Channel}
use async_task_orchestrator.Task.Model.{TaskPayload}
use async_task_orchestrator.Worker.Settle.{CalmChannel}
use async_task_orchestrator.Worker.Pool.{Pool, Reach}
use async_task_orchestrator.Worker.Pool.Spec.{
  count, body_of, body_taken, body_in, view, Spec-kept, Reach-Spec,
}

-- The messages with the body `b` that wait, are with a worker, or have an end.
abbrev pub present : Text → Pool → ℕ
present b s =
    count body_of b s.ready
    + count body_taken b s.taken
    + count body_in b s.finished
    + count body_in b s.dropped

abbrev pub sent : Text → Pool → ℕ
sent b s = count body_of b s.accepted

module _ (q : Database) (c : Channel) (calm : CalmDatabase q) (calm_channel : CalmChannel c)
    (unmarshal : Text → Option TaskPayload) (b : Text) where
  -- If no call panics, no message is lost, however the workers are interleaved and their
  -- connections break, and whatever frames are lost then: of the messages with a given body that the API has sent, as many at least
  -- wait in the queue, are with a worker, were acknowledged with no copy sent, or were rejected
  -- for good.
  pub Reach-present : (s : Pool) → Reach q c unmarshal s → sent b s ≤ present b s
  Reach-present s r = Spec-kept (view b s) (Reach-Spec b q c calm calm_channel unmarshal s r)

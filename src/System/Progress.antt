-- ===== src/System/Progress.antt =====
-- How a message of cmd/api/main.go gets its task done by the workers of cmd/worker/main.go.
use mathlib.Core.Path.{subst}
use async_task_orchestrator.Prelude.{
  ℕ, ◌≡◌, refl, sym, ◌∙◌, List, [], ◌∷◌, ◌++◌, All, All-middle, All-Mem, Text, some, true, false,
}
use async_task_orchestrator.Sql.{Database, Laws}
use async_task_orchestrator.Utils.Calm.{CalmDatabase}
use async_task_orchestrator.Cache.{RedisClient}
use async_task_orchestrator.Queue.Message.{Publishing}
use async_task_orchestrator.Queue.Channel.{Channel}
use async_task_orchestrator.Queue.Connect.{Amqp}
use async_task_orchestrator.Handler.Setup.{Libraries}
use async_task_orchestrator.Json.Payload.{unmarshal_payload}
use async_task_orchestrator.Task.Service.{App}
use async_task_orchestrator.Task.Caching.{RedisLaws, JsonLaws}
use async_task_orchestrator.Worker.Proc.{handle_task}
use async_task_orchestrator.Worker.Loop.{acked, World, handle_delivery}
use async_task_orchestrator.Worker.Settle.{CalmChannel}
use async_task_orchestrator.Worker.Pool.{Pool, delivered, is_free, is_worker, worker_ids}
use async_task_orchestrator.Worker.Pool.Effects.{settle-acked}
use async_task_orchestrator.Worker.Pool.Origins.{Reach-Origins, KnownMessage}
use async_task_orchestrator.System.Done.{Row, result_status, acked-Row, read_task}
use async_task_orchestrator.System.History.{after_round}
use async_task_orchestrator.System.Whole.{Whole, delivers, handles, Whole-Reach}
use async_task_orchestrator.Task.Model.{TaskPayload}
use async_task_orchestrator.Worker.Progress.{Commits, handle_delivery-acked}
use async_task_orchestrator.System.Backed.{Backed, Whole-Backed}

module _ (q : Database) (r : RedisClient) {B : Type 0} (a : Amqp B) (l : Libraries)
    (jwt_secret : Text) (conn : a.Connection) (c : Channel) (laws : Laws q)
    (redis_laws : RedisLaws r) (json_laws : JsonLaws l.json) (calm : CalmDatabase q)
    (calm_channel : CalmChannel c) where
  open laws use {committed}

  -- The message that waits is that of a task with a row.
  waiting-Backed :
      (s : App q r a) (p : Pool) (before after : List Publishing) (msg : Publishing)
      → Whole q r a l jwt_secret conn c laws redis_laws s p
      → p.ready ≡ before ++ msg ∷ after
      → (origin : Publishing) × Backed q r a l jwt_secret conn c laws redis_laws
          (committed s.db)
          origin
        × (msg.body ≡ origin.body)
  waiting-Backed s p before after msg h e =
      let reach = Whole-Reach q r a l jwt_secret conn c laws redis_laws s p h in
      let ready = (Reach-Origins q c calm calm_channel unmarshal_payload p reach).0 in
      let known =
        (All-middle (KnownMessage p.accepted) before after msg
          (subst (All (KnownMessage p.accepted)) e ready)).0 in
      let backed =
        Whole-Backed q r a l jwt_secret conn c laws redis_laws json_laws calm calm_channel s p h in
      (
        known.origin,
        All-Mem (Backed q r a l jwt_secret conn c laws redis_laws (committed s.db)) p.accepted
            known.origin backed known.is_sent,
        known.same,
      )

  -- If no call panics: at any time of the API and the workers together at which a message that
  -- encodes a payload waits and a worker is free, when both transactions of that worker's round
  -- succeed, two steps lead to a state in which the message is finished, every other message is
  -- where it was, and the task of the payload has a row with its user and its type that is SUCCESS
  -- if the work of the task reports no error, and FAILED otherwise.
  pub Whole-finishes :
      (s : App q r a) (p : Pool) (before after : List Publishing) (msg : Publishing) (i tag : ℕ)
      (payload : TaskPayload) (chan : c.Chan)
      → Whole q r a l jwt_secret conn c laws redis_laws s p
      → p.ready ≡ before ++ msg ∷ after
      → is_worker i worker_ids ≡ true
      → is_free i p.taken ≡ true
      → unmarshal_payload msg.body ≡ some payload
      → Commits q c i payload s.db
      → let s' =
          after_round q r a l jwt_secret conn c unmarshal_payload i (delivered tag msg) chan s in
        Whole q r a l jwt_secret conn c laws redis_laws s'
          (record p { ready = before ++ after; finished = delivered tag msg ∷ p.finished })
        × Row
            (committed s'.db)
            payload.id
            payload.user_id
            payload.task_type
            (result_status (handle_task payload i))
  Whole-finishes s p before after msg i tag payload chan h e works free read commits =
      let d = delivered tag msg in
      let w : World q c = record { db = s.db; chan = chan; calls = [] } in
      let (ended, calls) =
        handle_delivery-acked q c calm_channel unmarshal_payload i d payload w read commits in
      let (origin, b, same) = waiting-Backed s p before after msg h e in
      let body = same ∙ b.same_body in
      let its =
        read_task q r a l.is_print c laws calm calm_channel b.task d payload b.is_id b.is_user_id
          body read in
      let row =
        acked-Row q r a l.is_print c laws calm calm_channel b.task i d w b.is_id b.is_user_id body
          calls b.of_task in
      (
        subst (Whole q r a l jwt_secret conn c laws redis_laws _)
            (settle-acked d (record p { ready = before ++ after }))
            (handles [] p.taken i d chan (acked tag ∷ []) false true
              (delivers before after msg i tag h e works free) refl calls),
        subst
            (λ x.
              Row (committed (handle_delivery q c unmarshal_payload i d w).1.db) x.id x.user_id
                x.task_type (result_status (handle_task x i)))
            (sym its) row,
      )

-- ===== src/System/Backed.antt =====
-- The messages of cmd/api/main.go and the rows of their tasks, while cmd/worker/main.go works.
use mathlib.Core.Path.{subst}
use async_task_orchestrator.Prelude.{
  ℕ, ◌≡◌, refl, sym, List, [], ◌∷◌, ◌++◌, All, All-middle, All-map, All-Mem, Text,
}
use async_task_orchestrator.Fmt.RoundTrip.{IsInt}
use async_task_orchestrator.Sql.{Database, Laws}
use async_task_orchestrator.Sql.Tables.{Task, Content}
use async_task_orchestrator.Utils.Calm.{CalmDatabase}
use async_task_orchestrator.Cache.{RedisClient}
use async_task_orchestrator.Queue.Message.{Delivery, Publishing}
use async_task_orchestrator.Queue.Channel.{Channel}
use async_task_orchestrator.Queue.Connect.{Amqp}
use async_task_orchestrator.Handler.Setup.{Libraries}
use async_task_orchestrator.Json.Payload.{unmarshal_payload}
use async_task_orchestrator.Task.Service.{App, task_message}
use async_task_orchestrator.Task.Caching.{RedisLaws, JsonLaws}
use async_task_orchestrator.Worker.Loop.{Call, World}
use async_task_orchestrator.Worker.Settle.{CalmChannel}
use async_task_orchestrator.Worker.Pool.{Pool}
use async_task_orchestrator.Worker.Pool.Effects.{
  Effect, finishes, requeues, drops, copies, copies_and_drops, copies_and_requeues,
  handle_delivery-Effect,
}
use async_task_orchestrator.Worker.Pool.Origins.{KnownTaken, Reach-Origins}
use async_task_orchestrator.System.Owners.{OfTask, NewRow-OfTask, OfTask-kept}
use async_task_orchestrator.System.History.{create_task, Step, request, round, after_round}
use async_task_orchestrator.System.History as Past
use async_task_orchestrator.System.Invariant.{History-Fine, Step-Carried}
use async_task_orchestrator.System.Whole.{
  Whole, begins, requests, sends, meanwhile, delivers, handles, disconnects, Whole-History,
  Whole-Reach,
}

module _ (q : Database) (r : RedisClient) {B : Type 0} (a : Amqp B) (l : Libraries)
    (jwt_secret : Text) (conn : a.Connection) (c : Channel) (laws : Laws q)
    (redis_laws : RedisLaws r) where
  open laws use {committed}

  -- The message is that of a task, which has a row.
  pub record Backed (d : Content) (msg : Publishing) : Type 0 where
    pub task : Task
    pub is_id : IsInt task.id
    pub is_user_id : IsInt task.user_id
    pub same_body : msg.body ≡ (task_message q r a l.is_print task).body
    pub of_task : OfTask task d

  Backed-kept :
      (before now : Content)
      → ((task : Task) → OfTask task before → OfTask task now)
      → (msg : Publishing) → Backed before msg
      → Backed now msg
  Backed-kept before now kept msg h = record {
    task = h.task;
    is_id = h.is_id;
    is_user_id = h.is_user_id;
    same_body = h.same_body;
    of_task = kept h.task h.of_task;
  }

  module _ (json_laws : JsonLaws l.json) (calm : CalmDatabase q)
      (calm_channel : CalmChannel c) where
    Backed-step :
        (s t : App q r a) (p : Pool)
        → Whole q r a l jwt_secret conn c laws redis_laws s p
        → Step q r a l jwt_secret conn c unmarshal_payload laws redis_laws s t
        → All (Backed (committed s.db)) p.accepted
        → All (Backed (committed t.db)) p.accepted
    Backed-step s t p h step backed =
        let fine =
          History-Fine q r a l jwt_secret conn c unmarshal_payload laws redis_laws json_laws s
            (Whole-History q r a l jwt_secret conn c laws redis_laws s p h) in
        let kept =
          (Step-Carried q r a l jwt_secret conn c unmarshal_payload laws redis_laws json_laws s t
            step fine).kept in
        All-map (Backed (committed s.db)) (Backed (committed t.db))
          (Backed-kept (committed s.db) (committed t.db)
            (λ task. OfTask-kept task (committed s.db) (committed t.db) kept))
          p.accepted backed

    -- The message of the delivery that a worker has.
    pub taken-Backed :
        (s : App q r a) (p : Pool) (before after : List (ℕ × Delivery)) (i : ℕ) (d : Delivery)
        → Whole q r a l jwt_secret conn c laws redis_laws s p
        → p.taken ≡ before ++ (i, d) ∷ after
        → All (Backed (committed s.db)) p.accepted
        → (msg : Publishing) × Backed (committed s.db) msg × (d.body ≡ msg.body)
    taken-Backed s p before after i d h e backed =
        let reach = Whole-Reach q r a l jwt_secret conn c laws redis_laws s p h in
        let taken = (Reach-Origins q c calm calm_channel unmarshal_payload p reach).1 in
        let known =
          (All-middle (KnownTaken p.accepted) before after (i, d)
            (subst (All (KnownTaken p.accepted)) e taken)).0 in
        (
          known.origin,
          All-Mem (Backed (committed s.db)) p.accepted known.origin backed known.is_sent,
          known.same,
        )

    Effect-accepted :
        (d : Delivery) (calls : List Call) (p p' : Pool)
        → Effect d calls p p'
        → p'.accepted ≡ p.accepted
    Effect-accepted d calls p p' (finishes e) = refl
    Effect-accepted d calls p p' requeues = refl
    Effect-accepted d calls p p' drops = refl
    Effect-accepted d calls p p' (copies low) = refl
    Effect-accepted d calls p p' (copies_and_drops low) = refl
    Effect-accepted d calls p p' (copies_and_requeues low) = refl

    -- Every message that was sent is that of a task with a row.
    pub Whole-Backed :
        (s : App q r a) (p : Pool)
        → Whole q r a l jwt_secret conn c laws redis_laws s p
        → All (Backed (committed s.db)) p.accepted
    Whole-Backed s p' (begins h) = tt
    Whole-Backed s' p' (requests {s = s} {p = p} e m ctx h) =
        Backed-step s s' p h (request e m ctx) (Whole-Backed s p h)
    Whole-Backed s' p' (sends {s = s} {p = p} m ctx task h i u new) = (
      record {
        task = task;
        is_id = i;
        is_user_id = u;
        same_body = refl;
        of_task = NewRow-OfTask task (committed s.db) (committed s'.db) new;
      },
      Backed-step s s' p h (request create_task m ctx) (Whole-Backed s p h),
    )
    Whole-Backed s' p' (meanwhile {s = s} {p = p} t h same fades) =
        Backed-step s t p h (Past.meanwhile t same fades) (Whole-Backed s p h)
    Whole-Backed s' p' (delivers {s = s} {p = p} before after msg i tag h e w f) =
        Whole-Backed s p h
    Whole-Backed s' p' (handles {s = s} {p = p} before after i d chan calls copied settled h e k) =
        let w : World q c = record { db = s.db; chan = chan; calls = [] } in
        let p'' = record p { taken = before ++ after } in
        let effect =
          handle_delivery-Effect q c calm calm_channel unmarshal_payload i d w calls copied settled
            p'' k in
        subst (All (Backed (committed s'.db))) (sym (Effect-accepted d calls p'' p' effect))
          (Backed-step s s' p h (round i d chan) (Whole-Backed s p h))
    Whole-Backed s' p' (disconnects {s = s} {p = p} before after i d h e) = Whole-Backed s p h

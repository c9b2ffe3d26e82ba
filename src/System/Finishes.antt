-- ===== src/System/Finishes.antt =====
-- What the acknowledged messages of cmd/worker/main.go have done to the tasks of cmd/api/main.go.
mod Tests
use mathlib.Core.Path.{subst}
use mathlib.Core.List.{Memᴰ}
use async_task_orchestrator.Prelude.{
  ℕ, ℤ, Bool, ◌≡◌, refl, sym, ap, ◌∙◌, List, [], ◌∷◌, ◌++◌, All, All-append, All-middle, All-map,
  All-Mem, Text,
}
use async_task_orchestrator.Fmt.RoundTrip.{IsInt}
use async_task_orchestrator.Sql.{Database, Laws}
use async_task_orchestrator.Sql.Tables.{Task, Content}
use async_task_orchestrator.Utils.Calm.{CalmDatabase}
use async_task_orchestrator.Cache.{RedisClient}
use async_task_orchestrator.Queue.Message.{Delivery, Publishing}
use async_task_orchestrator.Queue.Channel.{Channel}
use async_task_orchestrator.Queue.Connect.{Amqp}
use async_task_orchestrator.Handler.Setup.{Libraries}
use async_task_orchestrator.Json.Payload.{unmarshal_payload}
use async_task_orchestrator.Task.Service.{App, task_message}
use async_task_orchestrator.Task.Caching.{RedisLaws, JsonLaws}
use async_task_orchestrator.Worker.Proc.{handle_task}
use async_task_orchestrator.Worker.Loop.{Call, acked, World, handle_delivery}
use async_task_orchestrator.Worker.Settle.{CalmChannel}
use async_task_orchestrator.Worker.Messages.{payload_of}
use async_task_orchestrator.Worker.Pool.{Pool}
use async_task_orchestrator.Worker.Pool.Effects.{
  Effect, finishes, requeues, drops, copies, copies_and_drops, copies_and_requeues, Effect-All,
  handle_delivery-Effect,
}
use async_task_orchestrator.Worker.Pool.Origins.{Known, KnownTaken, Reach-Origins}
use async_task_orchestrator.System.Owners.{OfTask, NewRow-OfTask, OfTask-kept}
use async_task_orchestrator.System.Done.{Row, result_status, acked-Row}
use async_task_orchestrator.System.History.{create_task, Step, request, round, after_round}
use async_task_orchestrator.System.History as Past
use async_task_orchestrator.System.Invariant.{History-Fine, Step-Carried}
use async_task_orchestrator.System.Whole.{
  Whole, Run, run, Begins, here, requests_later, sends_later, meanwhile_later, delivers_later,
  handles_later, disconnects_later, message_of, begins, requests, sends, meanwhile, delivers,
  handles, disconnects, Whole-History, Whole-Reach,
}
use async_task_orchestrator.System.Backed.{Whole-Backed, taken-Backed}

module _ (q : Database) (r : RedisClient) {B : Type 0} (a : Amqp B) (l : Libraries)
    (jwt_secret : Text) (conn : a.Connection) (c : Channel) (laws : Laws q)
    (redis_laws : RedisLaws r) where
  open laws use {committed}

  -- The delivery is of the message of a task, and this run has come through a state in which a
  -- worker had the delivery and handled it: that round only acknowledged it, and has left a row of
  -- the task with its user, its type and the status of its result.
  pub record DoneBefore {s : App q r a} {p : Pool}
      (w : Whole q r a l jwt_secret conn c laws redis_laws s p) (d : Delivery) : Type 0 where
    pub task : Task
    pub same_body : d.body ≡ (task_message q r a l.is_print task).body
    pub at : App q r a
    pub pool : Pool
    pub until : Whole q r a l jwt_secret conn c laws redis_laws at pool
    pub before : List (ℕ × Delivery)
    pub after : List (ℕ × Delivery)
    pub worker_id : ℕ
    pub chan : c.Chan
    pub calls : List Call
    pub copied : Bool
    pub settled : Bool
    pub had : pool.taken ≡ before ++ (worker_id, d) ∷ after
    pub handled :
        (handle_delivery q c unmarshal_payload worker_id d
          (record { db = at.db; chan = chan; calls = [] })).1.calls
        ≡ calls
    pub only_acked : calls ≡ acked d.tag ∷ []
    pub in_this_run :
        Begins q r a l jwt_secret conn c laws redis_laws
          (run q r a l jwt_secret conn c laws redis_laws
            (handles before after worker_id d chan calls copied settled until had handled))
          (run q r a l jwt_secret conn c laws redis_laws w)
    pub finished :
        Row
          (committed
            (after_round q r a l jwt_secret conn c unmarshal_payload worker_id d chan at).db)
          task.id
          task.user_id
          task.task_type
          (result_status (handle_task (payload_of task) worker_id))

  DoneBefore-later :
      (s t : App q r a) (p p' : Pool) (w : Whole q r a l jwt_secret conn c laws redis_laws s p)
      (w' : Whole q r a l jwt_secret conn c laws redis_laws t p')
      → ((first : Run q r a l jwt_secret conn c laws redis_laws)
          → Begins q r a l jwt_secret conn c laws redis_laws first
              (run q r a l jwt_secret conn c laws redis_laws w)
          → Begins q r a l jwt_secret conn c laws redis_laws first
              (run q r a l jwt_secret conn c laws redis_laws w'))
      → (d : Delivery) → DoneBefore w d
      → DoneBefore w' d
  DoneBefore-later s t p p' w w' goes_on d h = record {
    task = h.task;
    same_body = h.same_body;
    at = h.at;
    pool = h.pool;
    until = h.until;
    before = h.before;
    after = h.after;
    worker_id = h.worker_id;
    chan = h.chan;
    calls = h.calls;
    copied = h.copied;
    settled = h.settled;
    had = h.had;
    handled = h.handled;
    only_acked = h.only_acked;
    in_this_run = goes_on _ h.in_this_run;
    finished = h.finished;
  }

  module _ (json_laws : JsonLaws l.json) (calm : CalmDatabase q)
      (calm_channel : CalmChannel c) where
    Whole-done :
        (s : App q r a) (p : Pool) (w : Whole q r a l jwt_secret conn c laws redis_laws s p)
        → All (DoneBefore w) p.finished
    Whole-done s p' (begins h) = tt
    Whole-done s' p' (requests {s = s} {p = p} e m ctx w) =
        All-map (DoneBefore w) (DoneBefore (requests e m ctx w))
          (DoneBefore-later s s' p p' w (requests e m ctx w) (λ first. requests_later e m ctx w))
          p.finished (Whole-done s p w)
    Whole-done s' p' (sends {s = s} {p = p} m ctx task w i u new) =
        All-map (DoneBefore w) (DoneBefore (sends m ctx task w i u new))
          (DoneBefore-later s s' p p' w (sends m ctx task w i u new)
            (λ first. sends_later m ctx task w i u new))
          p.finished (Whole-done s p w)
    Whole-done s' p' (meanwhile {s = s} {p = p} t w same fades) =
        All-map (DoneBefore w) (DoneBefore (meanwhile t w same fades))
          (DoneBefore-later s s' p p' w (meanwhile t w same fades)
            (λ first. meanwhile_later t w same fades))
          p.finished (Whole-done s p w)
    Whole-done s' p' (delivers {s = s} {p = p} before after msg i tag w e works f) =
        All-map (DoneBefore w) (DoneBefore (delivers before after msg i tag w e works f))
          (DoneBefore-later s s' p p' w (delivers before after msg i tag w e works f)
            (λ first. delivers_later before after msg i tag w e works f))
          p.finished (Whole-done s p w)
    Whole-done s' p' (disconnects {s = s} {p = p} before after i d w e) =
        All-map (DoneBefore w) (DoneBefore (disconnects before after i d w e))
          (DoneBefore-later s s' p p' w (disconnects before after i d w e)
            (λ first. disconnects_later before after i d w e))
          p.finished (Whole-done s p w)
    Whole-done s' p' (handles {s = s} {p = p} before after i d chan calls copied settled w e k) =
        let world : World q c = record { db = s.db; chan = chan; calls = [] } in
        let p'' = record p { taken = before ++ after } in
        let w' : Whole q r a l jwt_secret conn c laws redis_laws s' p' =
          handles before after i d chan calls copied settled w e k in
        let (msg, b, same) =
          taken-Backed q r a l jwt_secret conn c laws redis_laws json_laws calm calm_channel s p
            before after i d w e
            (Whole-Backed q r a l jwt_secret conn c laws redis_laws json_laws calm calm_channel s p
              w) in
        let body = same ∙ b.same_body in
        let earlier =
          All-map (DoneBefore w) (DoneBefore w')
            (DoneBefore-later s s' p p' w w'
              (λ first. handles_later before after i d chan calls copied settled w e k))
            p.finished (Whole-done s p w) in
        Effect-All (DoneBefore w') d calls p'' p'
          (handle_delivery-Effect q c calm calm_channel unmarshal_payload i d world calls copied
            settled p'' k)
          (λ only. record {
            task = b.task;
            same_body = body;
            at = s;
            pool = p;
            until = w;
            before = before;
            after = after;
            worker_id = i;
            chan = chan;
            calls = calls;
            copied = copied;
            settled = settled;
            had = e;
            handled = k;
            only_acked = only;
            in_this_run = here;
            finished =
                acked-Row q r a l.is_print c laws calm calm_channel b.task i d world b.is_id
                  b.is_user_id body (k ∙ only) b.of_task;
          })
          earlier

    -- If no call panics, then in every run of the API and the workers together, from empty tables,
    -- whatever fails, breaks, expires or is lost: every delivery that was acknowledged with no copy
    -- sent has the body of the message of some task, and the run has come through a round, of a
    -- worker that had this delivery, that only acknowledged it and has left a row of that task, with
    -- its user and its type, that is SUCCESS if the work of the task reports no error, and FAILED
    -- otherwise.
    pub Whole-DoneBefore :
        (s : App q r a) (p : Pool) (d : Delivery)
        (w : Whole q r a l jwt_secret conn c laws redis_laws s p)
        → Memᴰ d p.finished
        → DoneBefore w d
    Whole-DoneBefore s p d w m = All-Mem (DoneBefore w) p.finished d (Whole-done s p w) m

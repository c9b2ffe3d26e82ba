-- ===== src/System/Whole.antt =====
-- The API of cmd/api/main.go and the workers of cmd/worker/main.go with one database and one queue.
use async_task_orchestrator.Prelude.{ℕ, Bool, true, ◌≡◌, refl, List, [], ◌∷◌, ◌++◌, Text}
use async_task_orchestrator.Fmt.RoundTrip.{IsInt}
use async_task_orchestrator.Sql.{Database, Laws}
use async_task_orchestrator.Sql.Tables.{Task}
use async_task_orchestrator.Cache.{RedisClient}
use async_task_orchestrator.Http.{Context}
use async_task_orchestrator.Queue.Message.{Delivery, Publishing}
use async_task_orchestrator.Queue.Channel.{Channel}
use async_task_orchestrator.Queue.Connect.{Amqp}
use async_task_orchestrator.Handler.{Moment}
use async_task_orchestrator.Handler.Setup.{Libraries}
use async_task_orchestrator.Json.Payload.{unmarshal_payload}
use async_task_orchestrator.Task.Service.{App, task_message}
use async_task_orchestrator.Task.Caching.{RedisLaws}
use async_task_orchestrator.Worker.Loop.{Call, handle_delivery}
use async_task_orchestrator.Worker.Pool.{
  Pool, empty, delivered, returned, is_free, worker_ids, is_worker, settle, Reach,
}
use async_task_orchestrator.Worker.Pool as Queue
use async_task_orchestrator.System.Owners.{NewRow}
use async_task_orchestrator.System.History.{
  Endpoint, create_task, Fades, served, after_round, Later, at_once, next, request, round, Empty,
  History,
}
use async_task_orchestrator.System.History as Past

module _ (q : Database) (r : RedisClient) {B : Type 0} (a : Amqp B) (l : Libraries)
    (jwt_secret : Text) (conn : a.Connection) (c : Channel) (laws : Laws q)
    (redis_laws : RedisLaws r) where
  open laws use {committed}

  abbrev pub message_of : Task → Publishing
  message_of task = task_message q r a l.is_print task

  -- The state of the API beside that of the queue. A request to create a task may send the message
  -- of the row that it has committed; a worker that handles a delivery works on the same database.
  pub data Whole : App q r a → Pool → Type 0 where
    begins :
        {s : App q r a}
        → Empty q r a l jwt_secret conn c unmarshal_payload laws redis_laws s
        → Whole s empty
    requests :
        {s : App q r a} {p : Pool} (e : Endpoint) (m : Moment) (ctx : Context)
        → Whole s p
        → Whole (served q r a l jwt_secret conn c unmarshal_payload e m ctx s).1 p
    sends :
        {s : App q r a} {p : Pool} (m : Moment) (ctx : Context) (task : Task)
        → Whole s p
        → IsInt task.id
        → IsInt task.user_id
        → NewRow task (committed s.db) (
            committed (served q r a l jwt_secret conn c unmarshal_payload create_task m ctx s).1.db)
        → Whole
            (served q r a l jwt_secret conn c unmarshal_payload create_task m ctx s).1
            (record p {
              ready = p.ready ++ message_of task ∷ [];
              accepted = message_of task ∷ p.accepted;
            })
    meanwhile :
        {s : App q r a} {p : Pool} (t : App q r a)
        → Whole s p
        → committed t.db ≡ committed s.db
        → Fades r redis_laws s.redis t.redis
        → Whole t p
    delivers :
        {s : App q r a} {p : Pool} (before after : List Publishing) (msg : Publishing) (i tag : ℕ)
        → Whole s p
        → p.ready ≡ before ++ msg ∷ after
        → is_worker i worker_ids ≡ true
        → is_free i p.taken ≡ true
        → Whole s (record p { ready = before ++ after; taken = (i, delivered tag msg) ∷ p.taken })
    handles :
        {s : App q r a} {p : Pool} (before after : List (ℕ × Delivery)) (i : ℕ) (d : Delivery)
        (chan : c.Chan) (calls : List Call) (copied settled : Bool)
        → Whole s p
        → p.taken ≡ before ++ (i, d) ∷ after
        → (handle_delivery q c unmarshal_payload i d
            (record { db = s.db; chan = chan; calls = [] })).1.calls
          ≡ calls
        → Whole
            (after_round q r a l jwt_secret conn c unmarshal_payload i d chan s)
            (settle d copied settled calls (record p { taken = before ++ after }))
    disconnects :
        {s : App q r a} {p : Pool} (before after : List (ℕ × Delivery)) (i : ℕ) (d : Delivery)
        → Whole s p
        → p.taken ≡ before ++ (i, d) ∷ after
        → Whole s (record p { ready = returned d ∷ p.ready; taken = before ++ after })

  -- A run of the program, which ends in a state.
  pub record Run : Type 0 where
    pub state : App q r a
    pub pool : Pool
    pub whole : Whole state pool

  abbrev pub run : {s : App q r a} {p : Pool} → Whole s p → Run
  run {s = s} {p = p} w = record { state = s; pool = p; whole = w }

  -- The first run is a beginning of the second: the second goes on from where the first ends.
  pub data Begins (first : Run) : Run → Type 0 where
    here : Begins first first
    requests_later :
        {s : App q r a} {p : Pool} (e : Endpoint) (m : Moment) (ctx : Context) (w : Whole s p)
        → Begins first (run w)
        → Begins first (run (requests e m ctx w))
    sends_later :
        {s : App q r a} {p : Pool} (m : Moment) (ctx : Context) (task : Task) (w : Whole s p)
        (i : IsInt task.id) (u : IsInt task.user_id)
        (new : NewRow task
          (committed s.db)
          (committed (served q r a l jwt_secret conn c unmarshal_payload create_task m ctx s).1.db))
        → Begins first (run w)
        → Begins first (run (sends m ctx task w i u new))
    meanwhile_later :
        {s : App q r a} {p : Pool} (t : App q r a) (w : Whole s p)
        (same : committed t.db ≡ committed s.db) (fades : Fades r redis_laws s.redis t.redis)
        → Begins first (run w)
        → Begins first (run (meanwhile t w same fades))
    delivers_later :
        {s : App q r a} {p : Pool} (before after : List Publishing) (msg : Publishing) (i tag : ℕ)
        (w : Whole s p) (e : p.ready ≡ before ++ msg ∷ after)
        (works : is_worker i worker_ids ≡ true) (free : is_free i p.taken ≡ true)
        → Begins first (run w)
        → Begins first (run (delivers before after msg i tag w e works free))
    handles_later :
        {s : App q r a} {p : Pool} (before after : List (ℕ × Delivery)) (i : ℕ) (d : Delivery)
        (chan : c.Chan) (calls : List Call) (copied settled : Bool) (w : Whole s p)
        (e : p.taken ≡ before ++ (i, d) ∷ after)
        (k : (handle_delivery q c unmarshal_payload i d
            (record { db = s.db; chan = chan; calls = [] })).1.calls
          ≡ calls)
        → Begins first (run w)
        → Begins first (run (handles before after i d chan calls copied settled w e k))
    disconnects_later :
        {s : App q r a} {p : Pool} (before after : List (ℕ × Delivery)) (i : ℕ) (d : Delivery)
        (w : Whole s p) (e : p.taken ≡ before ++ (i, d) ∷ after)
        → Begins first (run w)
        → Begins first (run (disconnects before after i d w e))

  -- It is a history of the API, and one of the queue.
  pub Whole-History :
      (s : App q r a) (p : Pool)
      → Whole s p
      → History q r a l jwt_secret conn c unmarshal_payload laws redis_laws s
  Whole-History s p' (begins h) = record { start = s; empty = h; since = at_once }
  Whole-History s' p' (requests {s = s} {p = p} e m ctx h) =
      let past = Whole-History s p h in
      record { start = past.start; empty = past.empty; since = next past.since (request e m ctx) }
  Whole-History s' p' (sends {s = s} {p = p} m ctx task h i u row) =
      let past = Whole-History s p h in
      record {
        start = past.start;
        empty = past.empty;
        since = next past.since (request create_task m ctx);
      }
  Whole-History s' p' (meanwhile {s = s} {p = p} t h same fades) =
      let past = Whole-History s p h in
      record {
        start = past.start;
        empty = past.empty;
        since = next past.since (Past.meanwhile t same fades);
      }
  Whole-History s' p' (delivers {s = s} {p = p} before after msg i tag h e w f) =
      Whole-History s p h
  Whole-History s' p' (handles {s = s} {p = p} before after i d chan calls copied settled h e k) =
      let past = Whole-History s p h in
      record { start = past.start; empty = past.empty; since = next past.since (round i d chan) }
  Whole-History s' p' (disconnects {s = s} {p = p} before after i d h e) = Whole-History s p h

  pub Whole-Reach : (s : App q r a) (p : Pool) → Whole s p → Reach q c unmarshal_payload p
  unfolding task_message
  Whole-Reach s p' (begins h) = Queue.start
  Whole-Reach s' p' (requests {s = s} {p = p} e m ctx h) = Whole-Reach s p h
  Whole-Reach s' p' (sends {s = s} {p = p} m ctx task h i u row) =
      Queue.later (Whole-Reach s p h) (Queue.accepts (message_of task) refl)
  Whole-Reach s' p' (meanwhile {s = s} {p = p} t h same fades) = Whole-Reach s p h
  Whole-Reach s' p' (delivers {s = s} {p = p} before after msg i tag h e w f) =
      Queue.later (Whole-Reach s p h) (Queue.delivers before after msg i tag e w f)
  Whole-Reach s' p' (handles {s = s} {p = p} before after i d chan calls copied settled h e k) =
      Queue.later (Whole-Reach s p h) (
        Queue.handles before after i d (record { db = s.db; chan = chan; calls = [] }) calls copied
          settled e k)
  Whole-Reach s' p' (disconnects {s = s} {p = p} before after i d h e) =
      Queue.later (Whole-Reach s p h) (Queue.disconnects before after i d e)

-- ===== src/System/History.antt =====
-- Requests to the handlers of internal/user/controller.go and internal/task/controller.go, rounds of
-- the workers of internal/worker/worker.go, and entries of the cache that expire, one after another.
use async_task_orchestrator.Prelude.{ℕ, ℤ, ◌≡◌, ◌⊎◌, none, Option, [], Text}
use async_task_orchestrator.Sql.{Database, Laws}
use async_task_orchestrator.Cache.{RedisClient, task_key, user_tasks_key}
use async_task_orchestrator.Http.{Context, Handler}
use async_task_orchestrator.Queue.Message.{Delivery}
use async_task_orchestrator.Queue.Channel.{Channel}
use async_task_orchestrator.Queue.Connect.{Amqp}
use async_task_orchestrator.Handler.{Moment}
use async_task_orchestrator.Handler.Setup.{Libraries, user_controller, task_controller}
use async_task_orchestrator.Task.Model.{TaskPayload}
use async_task_orchestrator.Task.Service.{App}
use async_task_orchestrator.Task.Caching.{RedisLaws}
use async_task_orchestrator.Worker.Loop.{handle_delivery}

pub data Endpoint : Type 0 where
  register login refresh create_task get_task get_tasks : Endpoint

-- The entries of the service in the cache are as before or gone. The other entries, which are those
-- of the rate limiter, are arbitrary.
pub record Fades (r : RedisClient) (redis_laws : RedisLaws r) (before now : r.Store) : Type 0 where
  pub of_task :
      (id : ℤ)
      → (redis_laws.value (task_key id) now ≡ none)
        ⊎ (redis_laws.value (task_key id) now ≡ redis_laws.value (task_key id) before)
  pub of_user :
      (id : ℤ)
      → (redis_laws.value (user_tasks_key id) now ≡ none)
        ⊎ (redis_laws.value (user_tasks_key id) now ≡ redis_laws.value (user_tasks_key id) before)

module _ (q : Database) (r : RedisClient) {B : Type 0} (a : Amqp B) (l : Libraries)
    (jwt_secret : Text) (conn : a.Connection) (c : Channel)
    (unmarshal : Text → Option TaskPayload) where
  -- The handler of an endpoint.
  unfoldable pub served : Endpoint → Moment → Handler (App q r a)
  served register m = (user_controller q r a l jwt_secret m).register
  served login m = (user_controller q r a l jwt_secret m).login
  served refresh m = (user_controller q r a l jwt_secret m).refresh_token
  served create_task m = (task_controller q r a l jwt_secret conn).create_task
  served get_task m = (task_controller q r a l jwt_secret conn).get_task
  served get_tasks m = (task_controller q r a l jwt_secret conn).get_tasks_by_user

  -- The round of a worker, whose channel may be in any state.
  abbrev pub after_round : ℕ → Delivery → c.Chan → App q r a → App q r a
  after_round id msg chan s = record s {
    db =
        (handle_delivery q c unmarshal id msg (record { db = s.db; chan = chan; calls = [] })).1.db;
  }

  module _ (laws : Laws q) (redis_laws : RedisLaws r) where
    open laws use {committed}
    open redis_laws use {value}

    -- What happens next: a request is answered; a worker has a round; or in the meantime entries of
    -- the cache expire, the broker goes on, and the state of the client of the database changes.
    pub data Step (s : App q r a) : App q r a → Type 0 where
      request : (e : Endpoint) (m : Moment) (ctx : Context) → Step s (served e m ctx s).1
      round : (id : ℕ) (msg : Delivery) (chan : c.Chan) → Step s (after_round id msg chan s)
      meanwhile :
          (t : App q r a)
          → committed t.db ≡ committed s.db
          → Fades r redis_laws s.redis t.redis
          → Step s t

    pub data Later (s : App q r a) : App q r a → Type 0 where
      at_once : Later s s
      next : {t u : App q r a} → Later s t → Step t u → Later s u

    -- Both tables are empty, and the cache has no entry of the service.
    pub record Empty (s : App q r a) : Type 0 where
      pub no_row : committed s.db ≡ record { tasks = []; users = [] }
      pub no_task : (id : ℤ) → value (task_key id) s.redis ≡ none
      pub no_list : (id : ℤ) → value (user_tasks_key id) s.redis ≡ none

    -- A state that the program gets to.
    pub record History (s : App q r a) : Type 0 where
      pub start : App q r a
      pub empty : Empty start
      pub since : Later start s

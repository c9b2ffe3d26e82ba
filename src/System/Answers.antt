-- ===== src/System/Answers.antt =====
-- What the tables hold at any time, and what the handlers of internal/task/controller.go show then.
use async_task_orchestrator.Prelude.{ℤ, ◌≡◌, Option, some, Text}
use async_task_orchestrator.Sql.Tables.{Task, find_task}
use async_task_orchestrator.Go.{ok}
use async_task_orchestrator.Sql.{Database, Laws}
use async_task_orchestrator.Cache.{RedisClient}
use async_task_orchestrator.Http.{Context, Response}
use async_task_orchestrator.Queue.Channel.{Channel}
use async_task_orchestrator.Queue.Connect.{Amqp}
use async_task_orchestrator.Handler.{Moment}
use async_task_orchestrator.Handler.Setup.{Libraries}
use async_task_orchestrator.Task.Model.{TaskPayload}
use async_task_orchestrator.Task.Service.{App}
use async_task_orchestrator.Task.Caching.{RedisLaws, JsonLaws}
use async_task_orchestrator.Task.Access.{Shown, get_task_handler-Shown}
use async_task_orchestrator.Task.Entries.{get_task-Read}
use async_task_orchestrator.Task.Listing.{Listed, get_tasks_by_user-Listed}
use async_task_orchestrator.System.Tables.{Sound}
use async_task_orchestrator.System.Owners.{Owned, row-Owned}
use async_task_orchestrator.System.History.{History, Later, served, get_task, get_tasks}
use async_task_orchestrator.System.Invariant.{History-Fine, Later-Carried}

module _ (q : Database) (r : RedisClient) {B : Type 0} (a : Amqp B) (l : Libraries)
    (jwt_secret : Text) (conn : a.Connection) (c : Channel) (unmarshal : Text → Option TaskPayload)
    (laws : Laws q) (redis_laws : RedisLaws r) (json_laws : JsonLaws l.json) where
  open laws use {committed}

  -- Whatever requests arrive at the six endpoints, whatever messages the workers get, and whatever
  -- expires, fails or panics meanwhile, one after another from empty tables: the status of every
  -- task is PENDING, PROCESSING, SUCCESS or FAILED, no two tasks have the same identity, and no two
  -- users have the same identity or the same name.
  pub History-Sound :
      (s : App q r a)
      → History q r a l jwt_secret conn c unmarshal laws redis_laws s
      → Sound (committed s.db)
  History-Sound s h =
      (History-Fine q r a l jwt_secret conn c unmarshal laws redis_laws json_laws s h).sound

  -- A task that has a committed row at some time of such a history has a row with its identity at
  -- any later time, of the same user, type and time of creation.
  pub History-Owned :
      (s t : App q r a) (id : ℤ) (x : Task)
      → History q r a l jwt_secret conn c unmarshal laws redis_laws s
      → Later q r a l jwt_secret conn c unmarshal laws redis_laws s t
      → find_task id (committed s.db).tasks ≡ some x
      → Owned (committed t.db) id x
  History-Owned s t id x h later found =
      let fine = History-Fine q r a l jwt_secret conn c unmarshal laws redis_laws json_laws s h in
      (Later-Carried q r a l jwt_secret conn c unmarshal laws redis_laws json_laws s t later
          fine).kept
        id x (row-Owned (committed s.db) id x found)

  -- At any time of such a history, even if the cache is stale: an answer 200 of `GET /tasks/:id`
  -- shows a task to the user that owns it, and there is a committed row with the identity that was
  -- asked for, of the same user, type and time of creation.
  pub History-Shown :
      (s : App q r a) (m : Moment) (ctx : Context) (x : Response)
      → History q r a l jwt_secret conn c unmarshal laws redis_laws s
      → (served q r a l jwt_secret conn c unmarshal get_task m ctx s).0 ≡ ok x
      → x.status ≡ 200
      → Shown q r a laws l.json redis_laws json_laws (Owned (committed s.db)) ctx x
  unfolding served
  History-Shown s m ctx x h e k =
      let fine = History-Fine q r a l jwt_secret conn c unmarshal laws redis_laws json_laws s h in
      let P = Owned (committed s.db) in
      get_task_handler-Shown q r a laws l.json redis_laws json_laws P ctx s x
        (λ id.
          (get_task-Read q r a l.json laws redis_laws json_laws P id s
            (row-Owned (committed s.db) id) fine.cached).found)
        e k

  -- At any time of such a history, an answer 200 of `GET /users/tasks` lists only tasks of the user
  -- of the request.
  pub History-Listed :
      (s : App q r a) (m : Moment) (ctx : Context) (x : Response)
      → History q r a l jwt_secret conn c unmarshal laws redis_laws s
      → (served q r a l jwt_secret conn c unmarshal get_tasks m ctx s).0 ≡ ok x
      → x.status ≡ 200
      → Listed q r a l.json laws redis_laws json_laws (Owned (committed s.db)) ctx x
  unfolding served
  History-Listed s m ctx x h e k =
      let fine = History-Fine q r a l jwt_secret conn c unmarshal laws redis_laws json_laws s h in
      get_tasks_by_user-Listed q r a l.json laws redis_laws json_laws (Owned (committed s.db)) ctx s
        x fine.cached e k

-- ===== src/Task/Fresh.antt =====
-- GetTask of internal/task/service.go: the cache and the committed rows.
use async_task_orchestrator.Prelude.{ℤ, ◌≡◌, ap, ◌∙◌, some}
use async_task_orchestrator.Go.{ok}
use async_task_orchestrator.Sql.{Database, Laws}
use async_task_orchestrator.Sql.Tables.{Task, find_task}
use async_task_orchestrator.Cache.{RedisClient}
use async_task_orchestrator.Queue.Connect.{Amqp}
use async_task_orchestrator.Task.Service.{TaskJson, App, get_task}
use async_task_orchestrator.Task.Caching.{RedisLaws, JsonLaws, Cached-map, IsRow, Coherent}
use async_task_orchestrator.Task.Entries.{get_task-Read, Read-Cached}

module _ (q : Database) (r : RedisClient) {B : Type 0} (a : Amqp B) (json : TaskJson)
    (laws : Laws q) (redis_laws : RedisLaws r) (json_laws : JsonLaws json) where
  open laws use {committed}

  -- With a coherent cache, GetTask returns the committed row of its task, whether it comes from
  -- the cache or not.
  pub get_task-found :
      (id : ℤ) (s : App q r a) (t : Task)
      → Coherent q r a json laws redis_laws s
      → (get_task q r a json id s).0 ≡ ok t
      → find_task id (committed s.db).tasks ≡ some t
  get_task-found id s t c h =
      (get_task-Read q r a json laws redis_laws json_laws (IsRow q r a json laws redis_laws s) id s
          (λ t' row. row) c).found
        t h

  -- However GetTask ends, a coherent cache stays coherent and the committed tables are unchanged.
  pub get_task-Coherent :
      (id : ℤ) (s : App q r a)
      → Coherent q r a json laws redis_laws s
      → Coherent q r a json laws redis_laws (get_task q r a json id s).1
        × (committed (get_task q r a json id s).1.db ≡ committed s.db)
  get_task-Coherent id s c =
      let read =
        get_task-Read q r a json laws redis_laws json_laws (IsRow q r a json laws redis_laws s) id s
          (λ t' row. row) c in
      let kept =
        Read-Cached q r a json laws redis_laws json_laws (IsRow q r a json laws redis_laws s) id s
          (get_task q r a json id s) c read in
      (
        Cached-map r json redis_laws (IsRow q r a json laws redis_laws s) _ _
            (λ j t row. ap (λ d. find_task j d.tasks) read.same_db ∙ row) kept,
        read.same_db,
      )

-- ===== src/Task/Stale.antt =====
-- GetTask of internal/task/service.go after the row of a cached task has changed.
use async_task_orchestrator.Prelude.{ℤ, ◌≡◌, ◌∙◌, Option, some, Text}
use async_task_orchestrator.Go.{ok}
use async_task_orchestrator.Sql.{Database}
use async_task_orchestrator.Sql.Tables.{Task}
use async_task_orchestrator.Cache.{RedisClient, task_key, task_cache_ttl, cache_get, cache_set}
use async_task_orchestrator.Queue.Connect.{Amqp}
use async_task_orchestrator.Task.Repository.{get_by_id}
use async_task_orchestrator.Task.Service.{
  TaskJson, App, load_task, decoded_task, cached_task, get_task,
}
use async_task_orchestrator.Task.Caching.{RedisLaws, JsonLaws}

module _ (q : Database) (r : RedisClient) {B : Type 0} (a : Amqp B) (json : TaskJson)
    (redis_laws : RedisLaws r) (json_laws : JsonLaws json) where
  open redis_laws use {value}

  get_task-cached :
      (id : ℤ) (t : Task) (y : Text) (o : Option Text) (s : App q r a)
      → value (task_key id) s.redis ≡ some y
      → json.unmarshal_task y ≡ some t
      → (r.get (task_key id) s.redis).0 ≡ ok o
      → (get_task q r a json id s).0 ≡ ok t
  unfolding get_task cached_task decoded_task cache_get
  get_task-cached id t y o s v u got =
      rw got (rw (redis_laws.get_value (task_key id) s.redis o got ∙ v) (rw u))

  load_task-stores :
      (id : ℤ) (s : App q r a) (t : Task) (y : Text)
      → (get_by_id q id s.db).0 ≡ ok t
      → json.marshal_task t ≡ ok y
      → (r.put (task_key id) y task_cache_ttl s.redis).0 ≡ ok tt
      → value (task_key id) (load_task q r a json id s).1.redis ≡ some y
  unfolding load_task cache_set
  load_task-stores id s t y found m done =
      rw found (rw m (rw done (redis_laws.put_done (task_key id) y task_cache_ttl s.redis done)))

  -- When a miss of GetTask has put the row of a task into the cache, then in every later state,
  -- whatever its database holds, in which Redis still has under the task's key what it had after
  -- that miss, GetTask answers with that row, if GET succeeds.
  pub get_task-stale :
      (id : ℤ) (s : App q r a) (t : Task) (y : Text) (later : App q r a) (o : Option Text)
      → (get_by_id q id s.db).0 ≡ ok t
      → json.marshal_task t ≡ ok y
      → (r.put (task_key id) y task_cache_ttl s.redis).0 ≡ ok tt
      → value (task_key id) later.redis ≡ value (task_key id) (load_task q r a json id s).1.redis
      → (r.get (task_key id) later.redis).0 ≡ ok o
      → (get_task q r a json id later).0 ≡ ok t
  get_task-stale id s t y later o found m done still got =
      get_task-cached id t y o later (still ∙ load_task-stores id s t y found m done)
        (json_laws.task_back t y m) got

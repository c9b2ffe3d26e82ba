-- ===== src/Task/Through.antt =====
-- The reads of internal/task/service.go have one shape: from the cache, and after a miss from the
-- database, with the answer put into the cache.
use async_task_orchestrator.Prelude.{◌≡◌, refl, Option, none, some, Text, ℤ}
use async_task_orchestrator.Go.{M, Outcome, pure, handle, ignoring, ◌>>=◌}
use async_task_orchestrator.Sql.{Database}
use async_task_orchestrator.Cache.{RedisClient, task_key, user_tasks_key, cache_get, cache_set}
use async_task_orchestrator.Queue.Connect.{Amqp}
use async_task_orchestrator.Task.Repository.{get_by_id, get_by_user_id}
use async_task_orchestrator.Task.Service.{
  TaskJson, App, on_db, on_redis, load_task, decoded_task, cached_task, get_task, load_tasks,
  decoded_tasks, cached_tasks, get_tasks,
}

module _ (q : Database) (r : RedisClient) {B : Type 0} (a : Amqp B) {A : Type 0} (key : Text)
    (marshal : A → Outcome Text) (unmarshal : Text → Option A) (query : M q.Db A) where
  abbrev pub load : M (App q r a) A
  load = on_db q r a query >>= λ x. ignoring (on_redis q r a (cache_set r key (marshal x))) (pure x)

  abbrev pub decoded : Option A → M (App q r a) A
  decoded (some x) = pure x
  decoded none = load

  abbrev pub cached : Option Text → M (App q r a) A
  cached none = load
  cached (some y) = decoded (unmarshal y)

  abbrev pub through : M (App q r a) A
  through = handle (on_redis q r a (cache_get r key)) cached (λ e. load)

module _ (q : Database) (r : RedisClient) {B : Type 0} (a : Amqp B) (json : TaskJson) where
  pub get_task-through :
      (id : ℤ)
      → get_task q r a json id
        ≡ through q r a (task_key id) json.marshal_task json.unmarshal_task (get_by_id q id)
  unfolding get_task cached_task decoded_task load_task
  get_task-through id = refl

  pub get_tasks-through :
      (id : ℤ)
      → get_tasks q r a json id
        ≡ through q r a
            (user_tasks_key id)
            json.marshal_tasks
            json.unmarshal_tasks
            (get_by_user_id q id)
  unfolding get_tasks cached_tasks decoded_tasks load_tasks
  get_tasks-through id = refl

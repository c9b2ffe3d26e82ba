-- ===== src/Task/Service.antt =====
-- internal/task/service.go
use async_task_orchestrator.Prelude.{
  ℕ, ◌=ℤ◌, ℤ, pos, str_eq, Bool, ◌||◌, Option, none, some, List, if◌then◌else◌, Text, codes,
}
use async_task_orchestrator.Go.{deferring, new, Outcome, M, pure, raise, handle, ignoring, ◌>>=◌}
use async_task_orchestrator.Sql.{Database}
use async_task_orchestrator.Sql.Tables.{Task}
use async_task_orchestrator.Utils.Tx.{with_transaction}
use async_task_orchestrator.Cache.{RedisClient, task_key, user_tasks_key, cache_get, cache_set}
use async_task_orchestrator.Queue.Message.{Publishing}
use async_task_orchestrator.Queue.Connect.{Amqp, create_channel}
use async_task_orchestrator.Task.Repository.{create, get_by_id, get_by_user_id}
use async_task_orchestrator.Task.Body.{task_body}

-- encoding/json on a task and on a list of tasks.
pub record TaskJson : Type 0 where
  pub marshal_task : Task → Outcome Text
  pub unmarshal_task : Text → Option Task
  pub marshal_tasks : List Task → Outcome Text
  pub unmarshal_tasks : Text → Option (List Task)

module _ (q : Database) (r : RedisClient) {B : Type 0} (a : Amqp B) where
  -- What the services of the API work on.
  pub record App : Type 0 where
    pub db : q.Db
    pub redis : r.Store
    pub broker : B

  abbrev pub on_db : {A : Type 0} → M q.Db A → M App A
  on_db m s = let (x, d) = m s.db in (x, record s { db = d })

  abbrev pub on_redis : {A : Type 0} → M r.Store A → M App A
  on_redis m s = let (x, d) = m s.redis in (x, record s { redis = d })

  abbrev pub on_broker : {A : Type 0} → M B A → M App A
  on_broker m s = let (x, b) = m s.broker in (x, record s { broker = b })

  -- The message of a task.
  unfoldable pub task_message : (ℕ → Bool) → Task → Publishing
  task_message is_print task = record {
    routing_key = "task_queue";
    content_type = "application/json";
    body = task_body is_print task.id task.user_id (codes task.task_type);
    headers = none;
  }

  module _ (conn : a.Connection) (is_print : ℕ → Bool) where
    -- `defer ch.Close()` around the publishing: Close runs also when Publish fails or panics, and its
    -- error is dropped.
    unfoldable pub publish_task : Task → M App (Unit {0})
    publish_task task = do
      ch ← on_broker (create_channel a conn)
      deferring (on_broker (a.publish ch (task_message is_print task))) (on_broker (a.close ch))

    -- The task is returned, since its identity is written to the caller's struct.
    unfoldable pub create_task : Task → M App Task
    create_task task =
        if (task.user_id =ℤ pos 0) || str_eq task.task_type ""
        then raise (new "invalid task payload")
        else do
          task_id ← on_db (with_transaction q (λ tx. create q tx task))
          x ← publish_task (record task { id = task_id })
          pure (record task { id = task_id })

  module _ (json : TaskJson) where
    -- After a miss: the row, which is put into the cache.
    unfoldable pub load_task : ℤ → M App Task
    load_task task_id = do
      task ← on_db (get_by_id q task_id)
      ignoring (on_redis (cache_set r (task_key task_id) (json.marshal_task task))) (pure task)

    -- `if json.Unmarshal(cachedData, …) == nil { return … }`
    unfoldable pub decoded_task : ℤ → Option Task → M App Task
    decoded_task task_id (some task) = pure task
    decoded_task task_id none = load_task task_id

    unfoldable pub cached_task : ℤ → Option Text → M App Task
    cached_task task_id none = load_task task_id
    cached_task task_id (some json_data) = decoded_task task_id (json.unmarshal_task json_data)

    unfoldable pub get_task : ℤ → M App Task
    get_task task_id =
        handle (on_redis (cache_get r (task_key task_id))) (cached_task task_id)
          (λ e. load_task task_id)

    unfoldable pub load_tasks : ℤ → M App (List Task)
    load_tasks user_id = do
      tasks ← on_db (get_by_user_id q user_id)
      ignoring (on_redis (cache_set r (user_tasks_key user_id) (json.marshal_tasks tasks)))
          (pure tasks)

    -- `if json.Unmarshal(cachedData, …) == nil { return … }`
    unfoldable pub decoded_tasks : ℤ → Option (List Task) → M App (List Task)
    decoded_tasks user_id (some tasks) = pure tasks
    decoded_tasks user_id none = load_tasks user_id

    unfoldable pub cached_tasks : ℤ → Option Text → M App (List Task)
    cached_tasks user_id none = load_tasks user_id
    cached_tasks user_id (some json_data) = decoded_tasks user_id (json.unmarshal_tasks json_data)

    unfoldable pub get_tasks : ℤ → M App (List Task)
    get_tasks user_id =
        handle (on_redis (cache_get r (user_tasks_key user_id))) (cached_tasks user_id)
          (λ e. load_tasks user_id)

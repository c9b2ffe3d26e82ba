-- ===== src/Cache.antt =====
-- internal/cache/task_cache.go: the JSON cache of tasks in Redis. Redis and its client are not part
-- of the repository: GET and SET are parameters.
pub mod Keys
pub mod Tests
pub mod Connect
use async_task_orchestrator.Prelude.{ℕ, ◌*◌, ℤ, Option, Text, codes, ◌++◌}
use async_task_orchestrator.Go.{Outcome, ok, err, panic, M, raise, throw}
use async_task_orchestrator.Fmt.{decimal}

-- `get key` is `none` for redis.Nil; `put key value ttl` is SET with an expiration in seconds.
pub record RedisClient : Type 1 where
  pub Store : Type 0
  pub get : Text → M Store (Option Text)
  pub put : Text → Text → ℕ → M Store (Unit {0})

abbrev pub task_cache_ttl : ℕ
task_cache_ttl = 3600

-- fmt.Sprintf("task:%d", taskID) and fmt.Sprintf("tasks:user:%d", userID)
unfoldable pub task_key : ℤ → Text
task_key task_id = codes "task:" ++ decimal task_id

unfoldable pub user_tasks_key : ℤ → Text
user_tasks_key user_id = codes "tasks:user:" ++ decimal user_id

module _ (r : RedisClient) where
  -- A miss is a nil slice and a nil error.
  unfoldable pub cache_get : Text → M r.Store (Option Text)
  cache_get key = r.get key

  -- The argument is what json.Marshal returned.
  unfoldable pub cache_set : Text → Outcome Text → M r.Store (Unit {0})
  cache_set key (ok json_data) = r.put key json_data task_cache_ttl
  cache_set key (err e) = raise e
  cache_set key (panic p) = throw p

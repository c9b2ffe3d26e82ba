-- ===== src/Task/Caching.antt =====
-- What the cache of internal/task/service.go may hold, and what the reads of the service rely on.
use async_task_orchestrator.Prelude.{ℕ, ℤ, ◌≡◌, ◌≢◌, ◌⊎◌, Option, some, List, Text, All}
use async_task_orchestrator.Go.{ok}
use async_task_orchestrator.Sql.{Database, Laws}
use async_task_orchestrator.Sql.Tables.{Task, find_task}
use async_task_orchestrator.Cache.{RedisClient, task_key, user_tasks_key}
use async_task_orchestrator.Queue.Connect.{Amqp}
use async_task_orchestrator.Task.Service.{TaskJson, App}

-- Documented behaviour of GET and SET, in a span in which no entry expires and nobody else writes;
-- a SET whose answer was lost may have taken place.
pub record RedisLaws (r : RedisClient) : Type 0 where
  pub value : Text → r.Store → Option Text
  pub get_value : (k : Text) (s : r.Store) (o : Option Text) → (r.get k s).0 ≡ ok o → o ≡ value k s
  pub get_keeps : (k j : Text) (s : r.Store) → value j (r.get k s).1 ≡ value j s
  pub put_at :
      (k v : Text) (ttl : ℕ) (s : r.Store)
      → (value k (r.put k v ttl s).1 ≡ value k s) ⊎ (value k (r.put k v ttl s).1 ≡ some v)
  pub put_done :
      (k v : Text) (ttl : ℕ) (s : r.Store)
      → (r.put k v ttl s).0 ≡ ok tt
      → value k (r.put k v ttl s).1 ≡ some v
  pub put_others :
      (k j v : Text) (ttl : ℕ) (s : r.Store) → k ≢ j → value j (r.put k v ttl s).1 ≡ value j s

-- What json.Marshal wrote is read back.
pub record JsonLaws (json : TaskJson) : Type 0 where
  pub task_back :
      (t : Task) (x : Text) → json.marshal_task t ≡ ok x → json.unmarshal_task x ≡ some t
  pub tasks_back :
      (ts : List Task) (x : Text) → json.marshal_tasks ts ≡ ok x → json.unmarshal_tasks x ≡ some ts

abbrev pub OwnedBy : ℤ → List Task → Type 0
OwnedBy id ts = All (λ t. t.user_id ≡ id) ts

module _ (r : RedisClient) (json : TaskJson) (redis_laws : RedisLaws r) where
  -- A task that is cached for the identity `id` has the property `P id`, and a list that is cached
  -- for a user holds tasks of that user.
  pub record Cached (P : ℤ → Task → Type 0) (redis : r.Store) : Type 0 where
    pub of_task :
        (id : ℤ) (x : Text) (t : Task)
        → redis_laws.value (task_key id) redis ≡ some x
        → json.unmarshal_task x ≡ some t
        → P id t
    pub of_user :
        (id : ℤ) (x : Text) (ts : List Task)
        → redis_laws.value (user_tasks_key id) redis ≡ some x
        → json.unmarshal_tasks x ≡ some ts
        → OwnedBy id ts

pub Cached-map :
    (r : RedisClient) (json : TaskJson) (redis_laws : RedisLaws r) (P Q : ℤ → Task → Type 0)
    (redis : r.Store)
    → ((id : ℤ) (t : Task) → P id t → Q id t)
    → Cached r json redis_laws P redis
    → Cached r json redis_laws Q redis
Cached-map r json redis_laws P Q redis f c = record {
  of_task = λ id x t v u. f id t (c.of_task id x t v u);
  of_user = c.of_user;
}

module _ (q : Database) (r : RedisClient) {B : Type 0} (a : Amqp B) (json : TaskJson)
    (laws : Laws q) (redis_laws : RedisLaws r) where
  abbrev pub IsRow : App q r a → ℤ → Task → Type 0
  IsRow s id t = find_task id (laws.committed s.db).tasks ≡ some t

  -- A cached task is the committed row, and a cached list of a user holds tasks of that user.
  abbrev pub Coherent : App q r a → Type 0
  Coherent s = Cached r json redis_laws (IsRow s) s.redis

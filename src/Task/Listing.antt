-- ===== src/Task/Listing.antt =====
-- GetTasks of internal/task/service.go and GetTasksByUser of internal/task/controller.go: whose
-- tasks are listed.
use async_task_orchestrator.Prelude.{ℤ, ◌≡◌, inl, inr, sym, arith, List}
use async_task_orchestrator.Go.{Outcome-cases, ok, ok-injective}
use async_task_orchestrator.Sql.{Database, Laws}
use async_task_orchestrator.Sql.Tables.{Task}
use async_task_orchestrator.Http.{Context, Response}
use async_task_orchestrator.Auth.Context.{get_user_id_from_context}
use async_task_orchestrator.Cache.{RedisClient}
use async_task_orchestrator.Queue.Connect.{Amqp}
use async_task_orchestrator.Task.Service.{TaskJson, App, get_tasks}
use async_task_orchestrator.Task.Caching.{RedisLaws, JsonLaws, OwnedBy, Cached}
use async_task_orchestrator.Task.Entries.{get_tasks-Read}
use async_task_orchestrator.Task.Controller.{tasks_response, list_tasks, get_tasks_by_user}

module _ (q : Database) (r : RedisClient) {B : Type 0} (a : Amqp B) (json : TaskJson)
    (laws : Laws q) (redis_laws : RedisLaws r) (json_laws : JsonLaws json)
    (P : ℤ → Task → Type 0) where
  -- When the lists in the cache hold tasks of their users, GetTasks returns only tasks of its
  -- user, whether they come from the cache or not.
  pub get_tasks-OwnedBy :
      (id : ℤ) (s : App q r a) (ts : List Task)
      → Cached r json redis_laws P s.redis
      → (get_tasks q r a json id s).0 ≡ ok ts
      → OwnedBy id ts
  get_tasks-OwnedBy id s ts c h =
      (get_tasks-Read q r a json laws redis_laws json_laws P id s c).found ts h

  -- What an answer 200 of the list shows.
  pub record Listed (ctx : Context) (x : Response) : Type 0 where
    pub user_id : ℤ
    pub rows : List Task
    pub user : get_user_id_from_context ctx ≡ ok user_id
    pub owned : OwnedBy user_id rows
    pub shown : x ≡ tasks_response rows

  -- When the lists in the cache hold tasks of their users, the handler of `GET /users/tasks` answers 200 only with tasks of the
  -- user of the request.
  pub get_tasks_by_user-Listed :
      (ctx : Context) (s : App q r a) (x : Response)
      → Cached r json redis_laws P s.redis
      → (get_tasks_by_user q r a json ctx s).0 ≡ ok x
      → x.status ≡ 200
      → Listed ctx x
  unfolding get_tasks_by_user list_tasks
  get_tasks_by_user-Listed ctx s x c h k = elim (Outcome-cases (get_user_id_from_context ctx)) [
    | inl (id, user) ↦ elim (Outcome-cases (get_tasks q r a json id s).0) [
      | inl (ts, got) ↦ record {
        user_id = id;
        rows = ts;
        user = user;
        owned = get_tasks-OwnedBy id s ts c got;
        shown = sym (ok-injective (rw (user, got) at h));
      }
      | inr (inl (e, failed)) ↦ absurd (ground (arith, rw (user, failed) at h))
      | inr (inr (p, failed)) ↦ absurd (cc (rw (user, failed) at h))
    ]
    | inr (inl (e, failed)) ↦ absurd (ground (arith, rw failed at h))
    | inr (inr (p, failed)) ↦ absurd (cc (rw failed at h))
  ]

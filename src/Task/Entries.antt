-- ===== src/Task/Entries.antt =====
-- What the reads of internal/task/service.go return, and what they keep of the cache.
use mathlib.Core.Path.{subst}
use async_task_orchestrator.Prelude.{
  some-injective, ℤ, ◌=ℤ◌, =ℤ_iff, Bool-cases, ◌≡◌, ◌≢◌, inl, inr, sym, ap, ◌∙◌, arith, some, List,
  Text,
}
use async_task_orchestrator.Go.{Outcome}
use async_task_orchestrator.Sql.{Database, Laws}
use async_task_orchestrator.Sql.Tables.{Task}
use async_task_orchestrator.Cache.{RedisClient, task_key, user_tasks_key}
use async_task_orchestrator.Cache.Keys.{
  task_key-injective, user_tasks_key-injective, task_key-ne-user_tasks_key,
}
use async_task_orchestrator.Queue.Connect.{Amqp}
use async_task_orchestrator.Task.Repository.{get_by_id, get_by_user_id}
use async_task_orchestrator.Task.Service.{TaskJson, App, get_task, get_tasks}
use async_task_orchestrator.Task.Caching.{RedisLaws, JsonLaws, OwnedBy, Cached, IsRow}
use async_task_orchestrator.Task.Through.{get_task-through, get_tasks-through}
use async_task_orchestrator.Task.Reads.{Read, through-Read}
use async_task_orchestrator.Task.Queries.{
  get_by_id-found, get_by_id-keeps, get_by_user_id-OwnedBy, get_by_user_id-keeps,
}

module _ (q : Database) (r : RedisClient) {B : Type 0} (a : Amqp B) (json : TaskJson)
    (laws : Laws q) (redis_laws : RedisLaws r) (json_laws : JsonLaws json)
    (P : ℤ → Task → Type 0) where
  open laws use {committed}
  open redis_laws use {value}

  pub get_task-Read :
      (id : ℤ) (s : App q r a)
      → ((t : Task) → IsRow q r a json laws redis_laws s id t → P id t)
      → Cached r json redis_laws P s.redis
      → Read q r a laws redis_laws
          (task_key id)
          json.marshal_task
          (P id)
          s
          (get_task q r a json id s)
  get_task-Read id s rows c = rw (get_task-through q r a json id) (
      through-Read q r a laws redis_laws (task_key id) json.marshal_task (P id) json.unmarshal_task
        (get_by_id q id) (get_by_id-keeps q laws id) s
        (λ t h. rows t (get_by_id-found q laws id s.db t h)) (c.of_task id))

  pub get_tasks-Read :
      (id : ℤ) (s : App q r a)
      → Cached r json redis_laws P s.redis
      → Read q r a laws redis_laws
          (user_tasks_key id)
          json.marshal_tasks
          (OwnedBy id)
          s
          (get_tasks q r a json id s)
  get_tasks-Read id s c = rw (get_tasks-through q r a json id) (
      through-Read q r a laws redis_laws (user_tasks_key id) json.marshal_tasks (OwnedBy id)
        json.unmarshal_tasks (get_by_user_id q id) (get_by_user_id-keeps q laws id) s
        (get_by_user_id-OwnedBy q laws id s.db) (c.of_user id))

  own_entry :
      (id : ℤ) (s : App q r a) (x : Outcome Task × App q r a)
      → Cached r json redis_laws P s.redis
      → Read q r a laws redis_laws (task_key id) json.marshal_task (P id) s x
      → (y : Text) (t : Task) → value (task_key id) x.1.redis ≡ some y
      → json.unmarshal_task y ≡ some t
      → P id t
  own_entry id s x c h y t v u = elim h.entry [
    | inl same ↦ c.of_task id y t (sym same ∙ v) u
    | inr (t', y', good, m, v') ↦
        let e : y' ≡ y = cc in
        let same : t' ≡ t =
          some-injective (sym (json_laws.task_back t' y' m) ∙ ap json.unmarshal_task e ∙ u) in
        subst (P id) same good
  ]

  own_list :
      (id : ℤ) (s : App q r a) (x : Outcome (List Task) × App q r a)
      → Cached r json redis_laws P s.redis
      → Read q r a laws redis_laws (user_tasks_key id) json.marshal_tasks (OwnedBy id) s x
      → (y : Text) (ts : List Task) → value (user_tasks_key id) x.1.redis ≡ some y
      → json.unmarshal_tasks y ≡ some ts
      → OwnedBy id ts
  own_list id s x c h y ts v u = elim h.entry [
    | inl same ↦ c.of_user id y ts (sym same ∙ v) u
    | inr (ts', y', good, m, v') ↦
        let e : y' ≡ y = cc in
        let same : ts' ≡ ts =
          some-injective (sym (json_laws.tasks_back ts' y' m) ∙ ap json.unmarshal_tasks e ∙ u) in
        subst (OwnedBy id) same good
  ]

  -- An entry of another key is as before, and the one of the key is good.
  by_key :
      (id j : ℤ) (key : ℤ → Text) (Good : ℤ → Type 0)
      → ((i k : ℤ) → key i ≡ key k → i ≡ k)
      → Good id
      → (key id ≢ key j → Good j)
      → Good j
  by_key id j key Good injective own other = elim (Bool-cases (id =ℤ j)) [
    | inl same ↦ subst Good ((=ℤ_iff id j).0 same) own
    | inr differ ↦ other (λ k. let e = injective id j k in ground (arith, =ℤ_iff id j))
  ]

  pub Read-Cached :
      (id : ℤ) (s : App q r a) (x : Outcome Task × App q r a)
      → Cached r json redis_laws P s.redis
      → Read q r a laws redis_laws (task_key id) json.marshal_task (P id) s x
      → Cached r json redis_laws P x.1.redis
  Read-Cached id s x c h = record {
    of_task = λ j y t.
        by_key id j task_key
          (λ k. value (task_key k) x.1.redis ≡ some y → json.unmarshal_task y ≡ some t → P k t)
          task_key-injective (own_entry id s x c h y t)
          (λ ne v u. c.of_task j y t (sym (h.others (task_key j) ne) ∙ v) u);
    of_user = λ j y ts v u.
        c.of_user j y ts (sym (h.others (user_tasks_key j) (task_key-ne-user_tasks_key id j)) ∙ v)
          u;
  }

  pub list-Cached :
      (id : ℤ) (s : App q r a) (x : Outcome (List Task) × App q r a)
      → Cached r json redis_laws P s.redis
      → Read q r a laws redis_laws (user_tasks_key id) json.marshal_tasks (OwnedBy id) s x
      → Cached r json redis_laws P x.1.redis
  list-Cached id s x c h = record {
    of_task = λ j y t v u.
        c.of_task j y t
          (sym (h.others (task_key j) (λ e. task_key-ne-user_tasks_key j id (sym e))) ∙ v) u;
    of_user = λ j y ts.
        by_key id j user_tasks_key
          (λ k.
            value (user_tasks_key k) x.1.redis ≡ some y
            → json.unmarshal_tasks y ≡ some ts
            → OwnedBy k ts)
          user_tasks_key-injective (own_list id s x c h y ts)
          (λ ne v u. c.of_user j y ts (sym (h.others (user_tasks_key j) ne) ∙ v) u);
  }

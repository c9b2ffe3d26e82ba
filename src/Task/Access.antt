-- ===== src/Task/Access.antt =====
-- Who gets what from the handlers of internal/task/controller.go.
use async_task_orchestrator.Prelude.{
  ℕ, ℤ, ◌=ℤ◌, =ℤ_iff, String, Bool, Bool-cases, ◌≡◌, ◌≢◌, inl, inr, refl, sym, arith, none, some,
  Option-cases, Text,
}
use async_task_orchestrator.Go.{Error, Outcome, Outcome-cases, ok, err, panic, ok-injective}
use async_task_orchestrator.Sql.{Database, Laws}
use async_task_orchestrator.Sql.Tables.{Task}
use async_task_orchestrator.Cache.{RedisClient}
use async_task_orchestrator.Queue.Connect.{Amqp}
use async_task_orchestrator.Http.{Context, Response}
use async_task_orchestrator.Fmt.{atoi}
use async_task_orchestrator.Auth.Context.{get_user_id_from_context}
use async_task_orchestrator.Task.Service.{TaskJson, App, create_task, get_task}
use async_task_orchestrator.Task.Caching.{RedisLaws, JsonLaws, IsRow, Coherent}
use async_task_orchestrator.Task.Fresh.{get_task-found}
use async_task_orchestrator.Task.Creates.{Created, Sent, create_task_done}
use async_task_orchestrator.Task.Controller.{
  new_task, created_response, task_response, create_for, create_bound, create_task_handler,
  show_task, get_task_by, get_task_handler,
}

status-of : (r r' : Response) → Outcome.ok r ≡ ok r' → r.status ≡ r'.status
status-of r r' h = cc

module _ (q : Database) (r : RedisClient) {B : Type 0} (a : Amqp B) (laws : Laws q) where
  open laws use {committed}

  module _ (json : TaskJson) (redis_laws : RedisLaws r) (json_laws : JsonLaws json) where
    -- What a reader of a task is shown: a task with the property `P` of the identity that was
    -- asked for, which is their own.
    pub record Shown (P : ℤ → Task → Type 0) (ctx : Context) (x : Response) : Type 0 where
      pub id : ℤ
      pub row : Task
      pub asked : atoi ctx.id_param ≡ some id
      pub good : P id row
      pub owner : get_user_id_from_context ctx ≡ ok row.user_id
      pub shown : x ≡ task_response row

    show_task-owner :
        (t : Task) (u : Outcome ℤ) (s : App q r a) (x : Response)
        → (show_task q r a json t u s).0 ≡ ok x
        → x.status ≡ 200
        → (u ≡ ok t.user_id) × (x ≡ task_response t)
    unfolding show_task
    show_task-owner t (ok user_id) s x h k = elim (Bool-cases (t.user_id =ℤ user_id)) [
      | inl same ↦ (rw ((=ℤ_iff t.user_id user_id).0 same) refl, sym (ok-injective (rw same at h)))
      | inr differ ↦ absurd (ground arith)
    ]
    show_task-owner t (err e) s x h k = ground arith
    show_task-owner t (panic p) s x h k = cc

    found_own :
        (P : ℤ → Task → Type 0) (id : ℤ) (ctx : Context) (s : App q r a) (x : Response)
        → ((t : Task) → (get_task q r a json id s).0 ≡ ok t → P id t)
        → (get_task_by q r a json (some id) ctx s).0 ≡ ok x
        → x.status ≡ 200
        → (t : Task) × P id t
          × (get_user_id_from_context ctx ≡ ok t.user_id)
          × (x ≡ task_response t)
    unfolding get_task_by
    found_own P id ctx s x c h k = elim (Outcome-cases (get_task q r a json id s).0) [
      | inl (t, got) ↦
          let (owner, shown) =
            show_task-owner t (get_user_id_from_context ctx) (get_task q r a json id s).1 x
              (rw got at h) k in
          (t, c t got, owner, shown)
      | inr (inl (e, failed)) ↦ absurd (ground (arith, rw failed at h))
      | inr (inr (p, failed)) ↦ absurd (cc (rw failed at h))
    ]

    bad_id :
        (ctx : Context) (s : App q r a) (x : Response)
        → (get_task_by q r a json none ctx s).0 ≡ ok x
        → x.status ≢ 200
    unfolding get_task_by
    bad_id ctx s x h k = ground arith

    -- The handler of `GET /tasks/:id` answers 200 only with a task that GetTask returned, and only
    -- to the user that owns it.
    pub get_task_handler-Shown :
        (P : ℤ → Task → Type 0) (ctx : Context) (s : App q r a) (x : Response)
        → ((id : ℤ) (t : Task) → (get_task q r a json id s).0 ≡ ok t → P id t)
        → (get_task_handler q r a json ctx s).0 ≡ ok x
        → x.status ≡ 200
        → Shown P ctx x
    unfolding get_task_handler
    get_task_handler-Shown P ctx s x c h k = elim (Option-cases (atoi ctx.id_param)) [
      | inl bad ↦ absurd (bad_id ctx s x (rw bad at h) k)
      | inr (id, asked) ↦
          let (t, good, owner, shown) = found_own P id ctx s x (c id) (rw asked at h) k in
          record { id = id; row = t; asked = asked; good = good; owner = owner; shown = shown }
    ]

    -- With a coherent cache, the handler of `GET /tasks/:id` answers 200 only with the committed
    -- row of the task that the path names, and only to the user that owns it.
    pub get_task_handler_owned :
        (ctx : Context) (s : App q r a) (x : Response)
        → Coherent q r a json laws redis_laws s
        → (get_task_handler q r a json ctx s).0 ≡ ok x
        → x.status ≡ 200
        → Shown (IsRow q r a json laws redis_laws s) ctx x
    get_task_handler_owned ctx s x c h k =
        get_task_handler-Shown (IsRow q r a json laws redis_laws s) ctx s x
          (λ id t got. get_task-found q r a json laws redis_laws json_laws id s t c got) h k

  module _ (conn : a.Connection) (is_print : ℕ → Bool) (bind : Text → Outcome String) where
    -- What an answer 201 stands for: a new task of the user of the request.
    pub record Accepted (ctx : Context) (before : App q r a) (x : Response) (now : App q r a)
        : Type 0 where
      pub user_id : ℤ
      pub task_type : String
      pub task : Task
      pub requested : bind ctx.body ≡ ok task_type
      pub user : get_user_id_from_context ctx ≡ ok user_id
      pub created : Created q r a laws conn is_print (new_task user_id task_type) before task now
      pub answer : x ≡ created_response task

    create_for-Created :
        (task_type : String) (user_id : ℤ) (s : App q r a) (x : Response)
        → (create_for q r a conn is_print bind task_type (ok user_id) s).0 ≡ ok x
        → x.status ≡ 201
        → (t : Task) × Created q r a laws conn is_print
            (new_task user_id task_type)
            s
            t
            (create_for q r a conn is_print bind task_type (ok user_id) s).1
          × Sent q r a laws conn is_print s.broker t
          × (x ≡ created_response t)
    unfolding create_for
    create_for-Created task_type user_id s x h k =
        elim (Outcome-cases (create_task q r a conn is_print (new_task user_id task_type) s).0) [
          | inl (t, done) ↦
              let (created, sent) =
                create_task_done q r a laws conn is_print (new_task user_id task_type) s t done in
              (t, rw done created, sent, sym (ok-injective (rw done at h)))
          | inr (inl (e, failed)) ↦ absurd (ground (arith, rw failed at h))
          | inr (inr (p, failed)) ↦ absurd (cc (rw failed at h))
        ]

    no_user :
        (task_type : String) (e : Error) (s : App q r a) (x : Response)
        → (create_for q r a conn is_print bind task_type (err e) s).0 ≡ ok x
        → x.status ≢ 201
    unfolding create_for
    no_user task_type e s x h k = ground arith

    no_user_panic :
        (task_type : String) (p : String) (s : App q r a) (x : Response)
        → (create_for q r a conn is_print bind task_type (panic p) s).0 ≢ ok x
    unfolding create_for
    no_user_panic task_type p s x h = cc

    -- An answer 201 of the handler of `POST /tasks` is accepted, and its message was sent.
    pub create_task_handler-Accepted :
        (ctx : Context) (s : App q r a) (x : Response)
        → (create_task_handler q r a conn is_print bind ctx s).0 ≡ ok x
        → x.status ≡ 201
        → (accepted : Accepted ctx s x (create_task_handler q r a conn is_print bind ctx s).1)
          × Sent q r a laws conn is_print s.broker accepted.task
    unfolding create_task_handler create_bound
    create_task_handler-Accepted ctx s x h k = elim (Outcome-cases (bind ctx.body)) [
      | inl (task_type, requested) ↦ elim (Outcome-cases (get_user_id_from_context ctx)) [
        | inl (user_id, user) ↦
            let (t, created, sent, answer) =
              create_for-Created task_type user_id s x (rw (requested, user) at h) k in
            (
              record {
                user_id = user_id;
                task_type = task_type;
                task = t;
                requested = requested;
                user = user;
                created = rw (requested, user) created;
                answer = answer;
              },
              sent,
            )
        | inr (inl (e, failed)) ↦ absurd (no_user task_type e s x (rw (requested, failed) at h) k)
        | inr (inr (p, failed)) ↦
            absurd (no_user_panic task_type p s x (rw (requested, failed) at h))
      ]
      | inr (inl (e, failed)) ↦ absurd (ground (arith, rw failed at h))
      | inr (inr (p, failed)) ↦ absurd (cc (rw failed at h))
    ]

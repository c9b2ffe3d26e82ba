-- ===== src/System/Keeps.antt =====
-- What the handlers of internal/task/controller.go leave as it was.
use async_task_orchestrator.Prelude.{
  ℕ, ℤ, pos, ◌=ℤ◌, String, str_eq, ◌||◌, Bool, Bool-cases, ◌≡◌, refl, inl, inr, arith, Text,
  Option-cases,
}
use async_task_orchestrator.Go.{Outcome, Outcome-cases, ok, err, panic, pure, ◌>>=◌}
use async_task_orchestrator.Sql.{Database}
use async_task_orchestrator.Sql.Tables.{Task}
use async_task_orchestrator.Utils.Tx.{with_transaction}
use async_task_orchestrator.Cache.{RedisClient}
use async_task_orchestrator.Queue.Connect.{Amqp}
use async_task_orchestrator.Http.{Context}
use async_task_orchestrator.Fmt.{atoi}
use async_task_orchestrator.Auth.Context.{get_user_id_from_context}
use async_task_orchestrator.Task.Repository.{create}
use async_task_orchestrator.Task.Service.{
  TaskJson, App, publish_task, create_task, get_task, get_tasks,
}
use async_task_orchestrator.Task.Controller.{
  new_task, create_for, create_bound, create_task_handler, show_task, get_task_by, get_task_handler,
  list_tasks, get_tasks_by_user,
}

module _ (q : Database) (r : RedisClient) {B : Type 0} (a : Amqp B) where
  module _ (json : TaskJson) (P : App q r a → Type 0) where
    show_task_keeps :
        (t : Task) (u : Outcome ℤ) (s : App q r a) → P s → P (show_task q r a json t u s).1
    unfolding show_task
    show_task_keeps t (ok user_id) s h = elim (Bool-cases (t.user_id =ℤ user_id)) [
      | inl same ↦ rw same h
      | inr differ ↦ rw differ h
    ]
    show_task_keeps t (err e) s h = h
    show_task_keeps t (panic p) s h = h

    -- The handler keeps what holds of the state that GetTask leaves.
    pub get_task_handler_keeps :
        (ctx : Context) (s : App q r a)
        → P s
        → ((id : ℤ) → P (get_task q r a json id s).1)
        → P (get_task_handler q r a json ctx s).1
    unfolding get_task_handler get_task_by
    get_task_handler_keeps ctx s h k = elim (Option-cases (atoi ctx.id_param)) [
      | inl bad ↦ rw bad h
      | inr (id, asked) ↦ elim (Outcome-cases (get_task q r a json id s).0) [
        | inl (t, got) ↦ rw (asked, got) (show_task_keeps t (get_user_id_from_context ctx) _ (k id))
        | inr (inl (e, failed)) ↦ rw (asked, failed) (k id)
        | inr (inr (p, failed)) ↦ rw (asked, failed) (k id)
      ]
    ]

    pub get_tasks_by_user_keeps :
        (ctx : Context) (s : App q r a)
        → P s
        → ((id : ℤ) → P (get_tasks q r a json id s).1)
        → P (get_tasks_by_user q r a json ctx s).1
    unfolding get_tasks_by_user list_tasks
    get_tasks_by_user_keeps ctx s h k = elim (Outcome-cases (get_user_id_from_context ctx)) [
      | inl (id, user) ↦ elim (Outcome-cases (get_tasks q r a json id s).0) [
        | inl (ts, got) ↦ rw (user, got) (k id)
        | inr (inl (e, failed)) ↦ rw (user, failed) (k id)
        | inr (inr (p, failed)) ↦ rw (user, failed) (k id)
      ]
      | inr (inl (e, failed)) ↦ rw failed h
      | inr (inr (p, failed)) ↦ rw failed h
    ]

  module _ (conn : a.Connection) (is_print : ℕ → Bool) where
    publish_task-redis :
        (t : Task) (s : App q r a) → (publish_task q r a conn is_print t s).1.redis ≡ s.redis
    unfolding publish_task
    publish_task-redis t s = ground arith

    sent-redis :
        (task : Task) (s : App q r a)
        → ((publish_task q r a conn is_print task >>= λ u. pure task) s).1.redis ≡ s.redis
    sent-redis task s = elim (Outcome-cases (publish_task q r a conn is_print task s).0) [
      | inl (u, done) ↦ rw done (publish_task-redis task s)
      | inr (inl (e, failed)) ↦ rw failed (publish_task-redis task s)
      | inr (inr (p, failed)) ↦ rw failed (publish_task-redis task s)
    ]

    create_task-redis :
        (task : Task) (s : App q r a) → (create_task q r a conn is_print task s).1.redis ≡ s.redis
    unfolding create_task
    create_task-redis task s =
        elim (Bool-cases ((task.user_id =ℤ pos 0) || str_eq task.task_type "")) [
          | inl invalid ↦ rw invalid refl
          | inr valid ↦ elim (Outcome-cases (with_transaction q (λ tx. create q tx task) s.db).0) [
            | inl (key, done) ↦ rw (valid, done) (sent-redis (record task { id = key }) _)
            | inr (inl (e, failed)) ↦ rw (valid, failed) refl
            | inr (inr (p, failed)) ↦ rw (valid, failed) refl
          ]
        ]

    module _ (bind : Text → Outcome String) where
      create_for-redis :
          (task_type : String) (o : Outcome ℤ) (s : App q r a)
          → (create_for q r a conn is_print bind task_type o s).1.redis ≡ s.redis
      unfolding create_for
      create_for-redis task_type (ok user_id) s =
          let keeps = create_task-redis (new_task user_id task_type) s in
          elim (Outcome-cases (create_task q r a conn is_print (new_task user_id task_type) s).0) [
            | inl (t, done) ↦ rw done keeps
            | inr (inl (e, failed)) ↦ rw failed keeps
            | inr (inr (p, failed)) ↦ rw failed keeps
          ]
      create_for-redis task_type (err e) s = refl
      create_for-redis task_type (panic p) s = refl

      bound-redis :
          (o : Outcome String) (ctx : Context) (s : App q r a)
          → (create_bound q r a conn is_print bind o ctx s).1.redis ≡ s.redis
      unfolding create_bound
      bound-redis (ok task_type) ctx s = create_for-redis task_type (get_user_id_from_context ctx) s
      bound-redis (err e) ctx s = refl
      bound-redis (panic p) ctx s = refl

      pub create_task_handler-redis :
          (ctx : Context) (s : App q r a)
          → (create_task_handler q r a conn is_print bind ctx s).1.redis ≡ s.redis
      unfolding create_task_handler
      create_task_handler-redis ctx s = bound-redis (bind ctx.body) ctx s

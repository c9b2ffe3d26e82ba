-- ===== src/Task/Grows.antt =====
-- What CreateTask of internal/task/service.go can do to the tables, however it ends.
use async_task_orchestrator.Prelude.{
  ℕ, ℤ, pos, ◌=ℤ◌, String, str_eq, ◌||◌, Bool-cases, ◌≡◌, ◌⊎◌, refl, sym, ap, ◌∙◌, inl, inr, none,
  Text, Bool,
}
use async_task_orchestrator.Go.{Outcome, ok, err, panic, Outcome-cases, pure, ◌>>=◌}
use async_task_orchestrator.Sql.{Database, Laws}
use async_task_orchestrator.Sql.Tables.{Task, Content, insert_task, inserted, find_task}
use async_task_orchestrator.Utils.Tx.{with_transaction}
use async_task_orchestrator.Utils.Atomic.{with_transaction_atomic}
use async_task_orchestrator.Cache.{RedisClient}
use async_task_orchestrator.Queue.Connect.{Amqp}
use async_task_orchestrator.Http.{Context}
use async_task_orchestrator.Auth.Context.{get_user_id_from_context}
use async_task_orchestrator.Task.Repository.{create}
use async_task_orchestrator.Task.Service.{App, publish_task, create_task}
use async_task_orchestrator.Task.Controller.{
  new_task, create_for, create_bound, create_task_handler,
}
use async_task_orchestrator.Task.Creates.{publish_task-db}

-- The tables are as before, or have one more row, with an identity that no row had.
abbrev pub Grown : String → Content → Content → Type 0
Grown status before now =
    (now ≡ before)
    ⊎ ((key : ℤ) × (time : ℕ) × (user_id : ℤ) × (task_type : String) × (find_task key before.tasks
          ≡ none)
        × (now ≡ inserted time key (insert_task user_id task_type status) before))

module _ (q : Database) (r : RedisClient) {B : Type 0} (a : Amqp B) (laws : Laws q)
    (conn : a.Connection) (is_print : ℕ → Bool) where
  open laws use {committed}

  create_grows :
      (task : Task) (d : q.Db)
      → Grown task.status
          (committed d)
          (committed (with_transaction q (λ tx. create q tx task) d).1)
  unfolding create
  create_grows task d =
      elim (with_transaction_atomic q laws (λ tx. create q tx task) d
        (λ tx e. laws.insert_keeps tx _ e)) [
          | inl same ↦ inl same
          | inr (key, w) ↦
              let sees = laws.begin_sees d w.tx w.opened in
              inr (
                key,
                laws.now w.tx,
                task.user_id,
                task.task_type,
                ap (λ c. find_task key c.tasks) (sym sees)
                    ∙ laws.insert_task_new w.tx task.user_id task.task_type task.status
                        (q.begin d).1 key w.returned,
                w.visible
                    ∙ laws.insert_sees w.tx _ (q.begin d).1 key w.returned
                    ∙ ap (inserted (laws.now w.tx) key _) sees,
              )
        ]

  sent-db :
      (task : Task) (s : App q r a)
      → ((publish_task q r a conn is_print task >>= λ u. pure task) s).1.db ≡ s.db
  sent-db task s = elim (Outcome-cases (publish_task q r a conn is_print task s).0) [
    | inl (u, done) ↦ rw done (publish_task-db q r a laws conn is_print task s)
    | inr (inl (e, failed)) ↦ rw failed (publish_task-db q r a laws conn is_print task s)
    | inr (inr (p, failed)) ↦ rw failed (publish_task-db q r a laws conn is_print task s)
  ]

  create_task_grows :
      (task : Task) (s : App q r a)
      → Grown task.status (committed s.db) (committed (create_task q r a conn is_print task s).1.db)
  unfolding create_task
  create_task_grows task s =
      elim (Bool-cases ((task.user_id =ℤ pos 0) || str_eq task.task_type "")) [
        | inl invalid ↦ rw invalid (inl refl)
        | inr valid ↦ elim (Outcome-cases (with_transaction q (λ tx. create q tx task) s.db).0) [
          | inl (key, done) ↦
              rw (valid, done, sent-db (record task { id = key }) _) (create_grows task s.db)
          | inr (inl (e, failed)) ↦ rw (valid, failed) (create_grows task s.db)
          | inr (inr (p, failed)) ↦ rw (valid, failed) (create_grows task s.db)
        ]
      ]

  module _ (bind : Text → Outcome String) where
    create_for_grows :
        (task_type : String) (o : Outcome ℤ) (s : App q r a)
        → Grown "PENDING"
            (committed s.db)
            (committed (create_for q r a conn is_print bind task_type o s).1.db)
    unfolding create_for
    create_for_grows task_type (ok user_id) s =
        let grows = create_task_grows (new_task user_id task_type) s in
        elim (Outcome-cases (create_task q r a conn is_print (new_task user_id task_type) s).0) [
          | inl (t, done) ↦ rw done grows
          | inr (inl (e, failed)) ↦ rw failed grows
          | inr (inr (p, failed)) ↦ rw failed grows
        ]
    create_for_grows task_type (err e) s = inl refl
    create_for_grows task_type (panic p) s = inl refl

    bound_grows :
        (o : Outcome String) (ctx : Context) (s : App q r a)
        → Grown "PENDING"
            (committed s.db)
            (committed (create_bound q r a conn is_print bind o ctx s).1.db)
    unfolding create_bound
    bound_grows (ok task_type) ctx s = create_for_grows task_type (get_user_id_from_context ctx) s
    bound_grows (err e) ctx s = inl refl
    bound_grows (panic p) ctx s = inl refl

    -- However the handler of `POST /tasks` ends, the tables are as before, or have one more task,
    -- which is PENDING and has an identity that no task had.
    pub create_task_handler_grows :
        (ctx : Context) (s : App q r a)
        → Grown "PENDING"
            (committed s.db)
            (committed (create_task_handler q r a conn is_print bind ctx s).1.db)
    unfolding create_task_handler
    create_task_handler_grows ctx s = bound_grows (bind ctx.body) ctx s

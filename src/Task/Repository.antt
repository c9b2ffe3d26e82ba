-- ===== src/Task/Repository.antt =====
-- internal/task/repository.go
use async_task_orchestrator.Prelude.{ℤ, String, Option, none, some, List, [], ◌∷◌, ◌++◌}
use async_task_orchestrator.Go.{
  Error, new, wrap, invalid_token, expired_token, no_rows, pq_error, Outcome, ok, err, panic, M,
  pure, raise, handle, ◌>>=◌,
}
use async_task_orchestrator.Sql.{Database}
use async_task_orchestrator.Sql.Tables.{
  Task, update_tasks, insert_task, set_status, set_result_file, set_error_message, updated_at_now,
}

-- `if err == sql.ErrNoRows { return nil, errors.New("task not found") }; return nil, err`
unfoldable pub not_found : Error → Error
not_found no_rows = new "task not found"
not_found (new s) = new s
not_found (wrap s e) = wrap s e
not_found invalid_token = invalid_token
not_found expired_token = expired_token
not_found (pq_error c s) = pq_error c s

-- The loop of GetByUserID over the rows: a row that cannot be scanned is logged and left out.
unfoldable pub scanned : List (Outcome Task) → List Task → Outcome (List Task)
scanned [] tasks = ok tasks
scanned (ok t ∷ rows) tasks = scanned rows (tasks ++ t ∷ [])
scanned (err e ∷ rows) tasks = scanned rows tasks
scanned (panic p ∷ rows) tasks = panic p

-- `if err = rows.Err(); err != nil { return nil, err }`
unfoldable pub finished : Option Error → Outcome (List Task) → Outcome (List Task)
finished none r = r
finished (some e) (ok tasks) = err e
finished (some e) (err e') = err e'
finished (some e) (panic p) = panic p

module _ (q : Database) where
  open q use {Db, Tx, exec, insert, task_by_id, tasks_by_user}

  unfoldable pub create : Tx → Task → M Db ℤ
  create tx task = insert tx (insert_task task.user_id task.task_type task.status)

  unfoldable pub get_by_id : ℤ → M Db Task
  get_by_id id = handle (task_by_id id) pure (λ e. raise (not_found e))

  unfoldable pub get_by_user_id : ℤ → M Db (List Task)
  unfolding scanned finished
  get_by_user_id user_id = do
    rows ← tasks_by_user user_id
    (λ s. (finished rows.final (scanned rows.scans []), s))

  unfoldable pub mark_processing : Tx → ℤ → M Db (Unit {0})
  mark_processing tx id = do
    n ← exec tx (update_tasks (set_status "PROCESSING" ∷ updated_at_now ∷ []) id)
    pure tt

  unfoldable pub mark_success : Tx → ℤ → String → M Db (Unit {0})
  mark_success tx id result_file = do
    n ←
        exec tx (
          update_tasks (set_status "SUCCESS" ∷ set_result_file result_file ∷ updated_at_now ∷ [])
            id)
    pure tt

  unfoldable pub mark_failed : Tx → ℤ → String → M Db (Unit {0})
  mark_failed tx id error_message = do
    n ← exec tx (
        update_tasks (set_status "FAILED" ∷ set_error_message error_message ∷ updated_at_now ∷ [])
          id)
    pure tt

-- ===== src/Task/Controller.antt =====
-- internal/task/controller.go
use async_task_orchestrator.Prelude.{
  ℕ, ℤ, pos, ◌=ℤ◌, String, length, Bool, Option, none, some, List, [], ◌∷◌, if◌then◌else◌, Text,
}
use async_task_orchestrator.Go.{text, Outcome, ok, err, panic, M, pure, throw, handle}
use async_task_orchestrator.Sql.{Database}
use async_task_orchestrator.Sql.Tables.{Task}
use async_task_orchestrator.Cache.{RedisClient}
use async_task_orchestrator.Queue.Connect.{Amqp}
use async_task_orchestrator.Http.{str, num, nullable, time, tasks, Response, failure, Handler}
use async_task_orchestrator.Fmt.{atoi}
use async_task_orchestrator.Auth.Context.{get_user_id_from_context}
use async_task_orchestrator.Task.Service.{TaskJson, App, create_task, get_task, get_tasks}

-- What CreateTask hands to the service. A zero value stands in the other fields.
abbrev pub new_task : ℤ → String → Task
new_task user_id task_type = record {
  id = pos 0;
  user_id = user_id;
  task_type = task_type;
  status = "PENDING";
  result_file = none;
  error_message = none;
  created_at = 0;
  updated_at = 0;
}

abbrev pub created_response : Task → Response
created_response task = record {
  status = 201;
  body =
      ("task_id", num task.id)
      ∷ ("status", str task.status)
      ∷ ("message", str "Task created successfully")
      ∷ [];
}

abbrev pub task_response : Task → Response
task_response task = record {
  status = 200;
  body =
      ("id", num task.id)
      ∷ ("user_id", num task.user_id)
      ∷ ("task_type", str task.task_type)
      ∷ ("status", str task.status)
      ∷ ("result_file", nullable task.result_file)
      ∷ ("error_message", nullable task.error_message)
      ∷ ("created_at", time task.created_at)
      ∷ ("updated_at", time task.updated_at)
      ∷ [];
}

abbrev pub tasks_response : List Task → Response
tasks_response ts = record {
  status = 200;
  body = ("tasks", tasks ts) ∷ ("count", num (pos (length ts))) ∷ [];
}

module _ (q : Database) (r : RedisClient) {B : Type 0} (a : Amqp B) where
  -- The binding of the body to the request's struct is a parameter: it gives the task type.
  module _ (conn : a.Connection) (is_print : ℕ → Bool) (bind : Text → Outcome String) where
    unfoldable pub create_for : String → Outcome ℤ → M (App q r a) Response
    create_for task_type (ok user_id) =
        handle (create_task q r a conn is_print (new_task user_id task_type))
          (λ task. pure (created_response task)) (λ e. pure (failure 500 (text e)))
    create_for task_type (err e) = pure (failure 401 "User not authenticated")
    create_for task_type (panic p) = throw p

    unfoldable pub create_bound : Outcome String → Handler (App q r a)
    create_bound (ok task_type) ctx = create_for task_type (get_user_id_from_context ctx)
    create_bound (err e) ctx = pure (failure 400 (text e))
    create_bound (panic p) ctx = throw p

    unfoldable pub create_task_handler : Handler (App q r a)
    create_task_handler ctx = create_bound (bind ctx.body) ctx

  module _ (json : TaskJson) where
    -- The test of the owner.
    unfoldable pub show_task : Task → Outcome ℤ → M (App q r a) Response
    show_task task (ok user_id) =
        if task.user_id =ℤ user_id
        then pure (task_response task)
        else pure (failure 403 "You can only view your own tasks")
    show_task task (err e) = pure (failure 401 "User ID not found in context")
    show_task task (panic p) = throw p

    unfoldable pub get_task_by : Option ℤ → Handler (App q r a)
    get_task_by none ctx = pure (failure 400 "Invalid task ID")
    get_task_by (some id) ctx =
        handle (get_task q r a json id) (λ task. show_task task (get_user_id_from_context ctx))
          (λ e. pure (failure 404 "Task not found"))

    unfoldable pub get_task_handler : Handler (App q r a)
    get_task_handler ctx = get_task_by (atoi ctx.id_param) ctx

    unfoldable pub list_tasks : Outcome ℤ → M (App q r a) Response
    list_tasks (ok user_id) =
        handle (get_tasks q r a json user_id) (λ ts. pure (tasks_response ts))
          (λ e. pure (failure 500 "Failed to get tasks"))
    list_tasks (err e) = pure (failure 401 "User not authenticated")
    list_tasks (panic p) = throw p

    unfoldable pub get_tasks_by_user : Handler (App q r a)
    get_tasks_by_user ctx = list_tasks (get_user_id_from_context ctx)

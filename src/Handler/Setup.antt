-- ===== src/Handler/Setup.antt =====
-- SetupHandler of internal/handler/handler.go: the services and controllers on one state.
use async_task_orchestrator.Prelude.{ℕ, String, Bool, List, Text}
use async_task_orchestrator.Go.{Outcome, M}
use async_task_orchestrator.Sql.{Database}
use async_task_orchestrator.Cache.{RedisClient}
use async_task_orchestrator.Queue.Connect.{Amqp}
use async_task_orchestrator.Auth.Password.{Bcrypt}
use async_task_orchestrator.Auth.Jwt.{Jwt}
use async_task_orchestrator.User.Controller.{register, login, refresh_token_handler}
use async_task_orchestrator.Task.Service.{TaskJson, App, on_db}
use async_task_orchestrator.Task.Controller.{
  create_task_handler, get_task_handler, get_tasks_by_user,
}
use async_task_orchestrator.Middleware.RateLimit.{ScriptLoader}
use async_task_orchestrator.Handler.{Moment, UserController, TaskController, Route, setup_routes}

-- How gin binds the bodies of the requests to the structs of the handlers, and the libraries that
-- the services use.
pub record Libraries : Type 1 where
  pub bind_credentials : Text → Outcome (String × String)
  pub bind_token : Text → Outcome Text
  pub bind_task_type : Text → Outcome String
  pub bcrypt : Bcrypt
  pub jwt : Jwt
  pub json : TaskJson
  pub is_print : ℕ → Bool

module _ (q : Database) (r : RedisClient) {B : Type 0} (a : Amqp B) (l : Libraries)
    (jwt_secret : Text) where
  abbrev pub user_controller : Moment → UserController (App q r a)
  user_controller m = record {
    register = λ ctx. on_db q r a (register q l.bcrypt l.bind_credentials m.salt ctx);
    login = λ ctx.
        on_db q r a (
          login q l.bcrypt l.bind_credentials l.jwt m.first_made_at m.second_made_at jwt_secret
            ctx);
    refresh_token =
        refresh_token_handler l.bind_token l.jwt m.checked_at m.first_made_at m.second_made_at
          jwt_secret;
  }

  abbrev pub task_controller : a.Connection → TaskController (App q r a)
  task_controller conn = record {
    create_task = create_task_handler q r a conn l.is_print l.bind_task_type;
    get_task = get_task_handler q r a l.json;
    get_tasks_by_user = get_tasks_by_user q r a l.json;
  }

  unfoldable pub setup_handler :
      a.Connection → ScriptLoader (App q r a) → M (App q r a) (Moment → List (Route (App q r a)))
  setup_handler conn redis =
      setup_routes l.jwt jwt_secret redis user_controller (task_controller conn)

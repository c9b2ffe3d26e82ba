-- ===== src/Handler/Tests.antt =====
-- A request with a token to the routes.
use mathlib.Core.List.{Memᴰ}
use async_task_orchestrator.Prelude.{List, ◌∷◌, ◌≡◌, refl, All, [], codes, none, pos, true}
use async_task_orchestrator.Go.{ok, pure}
use async_task_orchestrator.Http.{Context, failure, get_key}
use async_task_orchestrator.Handler.{
  UserController, TaskController, Route, routes_at, setup_routes, Moment, route, post, auth_group,
}
use async_task_orchestrator.Middleware.RateLimit.{ScriptLoader, load_script, integer, ScriptRunner}
use async_task_orchestrator.Handler.Setup.{
  Libraries, user_controller, task_controller, setup_handler,
}
use async_task_orchestrator.Handler.Unserved.{Arrival, serve_all, setup_handler_serves_none}
use async_task_orchestrator.Task.Service.{App}
use async_task_orchestrator.Samples.Memory.{memory, holding}
use async_task_orchestrator.Samples.Redis.{store, Limits, runner}
use async_task_orchestrator.Samples.Signer.{plain, clear}
use async_task_orchestrator.Samples.Services.{rabbit, codec, engine}
use async_task_orchestrator.Handler.Locked.{Locked, setup_routes-Locked}

abbrev request : Context
request = record { authorization = codes "Bearer x"; id_param = []; body = []; keys = [] }

abbrev users : UserController Limits
users = record {
  register = λ ctx. pure (failure 201 "registered");
  login = λ ctx. pure (failure 200 "tokens");
  refresh_token = λ ctx. pure (failure 200 "tokens");
}

abbrev tasks : TaskController Limits
tasks = record {
  create_task = λ ctx. pure (failure 201 "created");
  get_task = λ ctx. pure (failure 200 "task");
  get_tasks_by_user = λ ctx. pure (failure 200 "tasks");
}

abbrev empty : Limits
empty key = none

abbrev first : Moment
first = record { unix = 0; checked_at = 0; first_made_at = 0; second_made_at = 0; salt = 0 }

abbrev loader : ScriptLoader Limits
loader = record { script_load = λ s. (ok runner, s) }

abbrev made : Moment → List (Route Limits)
made = routes_at clear (codes "secret") runner runner (λ m. users) tasks

routes_made : (setup_routes clear (codes "secret") loader (λ m. users) tasks empty).0 ≡ ok made
unfolding setup_routes load_script
routes_made = refl

setup_routes-Locked_example : All (Locked (engine Limits) request empty) (made first)
unfolding get_key
setup_routes-Locked_example =
    setup_routes-Locked loader (engine Limits) clear (codes "secret") (λ m. users) tasks empty made
      routes_made first request empty refl

-- The assembled API, with the services in memory.
abbrev Whole : Type 0
Whole = App memory store rabbit

abbrev libraries : Libraries
libraries = record {
  bind_credentials = λ body. ok ("alice", "password");
  bind_token = λ body. ok body;
  bind_task_type = λ body. ok "send_email";
  bcrypt = plain;
  jwt = clear;
  json = codec;
  is_print = λ c. true;
}

abbrev passing : ScriptRunner Whole
passing = record { eval_sha = λ key cfg now t. (ok (integer (pos 1)), t) }

abbrev allowing : ScriptLoader Whole
allowing = record { script_load = λ s. (ok passing, s) }

abbrev begun : Whole
begun = record { db = holding [] [] []; redis = λ key. none; broker = [] }

abbrev assembled : Moment → List (Route Whole)
assembled =
    routes_at clear (codes "secret") passing passing
      (user_controller memory store rabbit libraries (codes "secret"))
      (task_controller memory store rabbit libraries (codes "secret") tt)

is_assembled :
    (setup_handler memory store rabbit libraries (codes "secret") tt allowing begun).0
    ≡ ok assembled
unfolding setup_handler setup_routes load_script
is_assembled = refl

abbrev registration : Route Whole
registration =
    route post "/auth/register" (auth_group clear (codes "secret") passing first)
      (user_controller memory store rabbit libraries (codes "secret") first).register

registration_known : Memᴰ registration (assembled first)
unfolding routes_at
registration_known = Memᴰ.head refl

no_user : get_key "userID" request.keys ≡ none
unfolding get_key
no_user = refl

abbrev arrival : Arrival assembled
arrival = record {
  moment = first;
  route = registration;
  ctx = request;
  known = registration_known;
  no_user = no_user;
}

abbrev arrivals : List (Arrival assembled)
arrivals = arrival ∷ arrival ∷ []

setup_handler_serves_none_example : serve_all (engine Whole) arrivals begun ≡ begun
setup_handler_serves_none_example =
    setup_handler_serves_none memory store rabbit libraries (codes "secret") tt allowing
      (engine Whole) begun assembled is_assembled arrivals begun

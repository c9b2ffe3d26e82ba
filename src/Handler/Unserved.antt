-- ===== src/Handler/Unserved.antt =====
-- The API that SetupHandler of internal/handler/handler.go puts together, over many requests.
use mathlib.Core.List.{Memᴰ}
use async_task_orchestrator.Prelude.{List, [], ◌∷◌, Text, All-Mem, ◌≡◌, refl, ap, ◌∙◌, none}
use async_task_orchestrator.Go.{ok}
use async_task_orchestrator.Sql.{Database}
use async_task_orchestrator.Cache.{RedisClient}
use async_task_orchestrator.Queue.Connect.{Amqp}
use async_task_orchestrator.Task.Service.{App}
use async_task_orchestrator.Http.{Context, get_key, Engine}
use async_task_orchestrator.Middleware.RateLimit.{ScriptLoader}
use async_task_orchestrator.Handler.{Moment, Route, serve}
use async_task_orchestrator.Handler.Locked.{Locked, setup_routes-Locked}
use async_task_orchestrator.Handler.Setup.{
  Libraries, user_controller, task_controller, setup_handler,
}

-- A request to one of the routes, as it arrives: no handler has set a user in its context.
pub record Arrival {S : Type 0} (routes : Moment → List (Route S)) : Type 0 where
  pub moment : Moment
  pub route : Route S
  pub ctx : Context
  pub known : Memᴰ route (routes moment)
  pub no_user : get_key "userID" ctx.keys ≡ none

-- The state after the requests, one after another.
abbrev pub serve_all :
    {S : Type 0} {routes : Moment → List (Route S)} → Engine S → List (Arrival routes) → S → S
serve_all e [] s = s
serve_all e (x ∷ xs) s = serve_all e xs (serve e x.route x.ctx s).1

module _ (q : Database) (r : RedisClient) {B : Type 0} (a : Amqp B) (l : Libraries)
    (jwt_secret : Text) (conn : a.Connection) (redis : ScriptLoader (App q r a))
    (e : Engine (App q r a)) where
  -- Once SetupHandler has returned its routes, no sequence of requests to them changes the
  -- database, the cache or the broker: no user can register, and no task can be created.
  pub setup_handler_serves_none :
      (s : App q r a) (routes : Moment → List (Route (App q r a)))
      → (setup_handler q r a l jwt_secret conn redis s).0 ≡ ok routes
      → (xs : List (Arrival routes)) (later : App q r a) → serve_all e xs later ≡ later
  unfolding setup_handler
  setup_handler_serves_none s routes made [] later = refl
  setup_handler_serves_none s routes made (x ∷ xs) later =
      let locked =
        All-Mem (Locked e x.ctx later) (routes x.moment) x.route
          (setup_routes-Locked redis e l.jwt jwt_secret (user_controller q r a l jwt_secret)
            (task_controller q r a l jwt_secret conn) s routes made x.moment x.ctx later x.no_user)
          x.known in
      ap (λ t. serve_all e xs t.1) locked ∙ setup_handler_serves_none s routes made xs later

-- ===== src/Handler.antt =====
-- internal/handler/handler.go: the routes and the middlewares before them. gin.Default puts a logger
-- and a recovery before these, which the framework owns.
pub mod Locked
pub mod Setup
pub mod Unserved
pub mod Tests
use async_task_orchestrator.Prelude.{ℕ, String, List, [], ◌∷◌, Text}
use async_task_orchestrator.Go.{M, pure, ◌>>=◌}
use async_task_orchestrator.Http.{Handler, Middleware, Engine}
use async_task_orchestrator.Limiter.Config.{strict_rate_limiter, default_rate_limiter_config}
use async_task_orchestrator.Auth.Jwt.{Jwt}
use async_task_orchestrator.Middleware.Auth.{auth_middleware}
use async_task_orchestrator.Middleware.RateLimit.{
  ScriptRunner, ScriptLoader, load_script, rate_limiter_middleware,
}

pub data Method : Type 0 where
  post get : Method

-- What a request takes from the clocks, and from the random source of bcrypt: the second of the
-- limiter, the nanoseconds at which a token is checked and at which two tokens are made, the salt.
pub record Moment : Type 0 where
  pub unix : ℕ
  pub checked_at : ℕ
  pub first_made_at : ℕ
  pub second_made_at : ℕ
  pub salt : ℕ

module _ (S : Type 0) where
  -- The handlers of the two controllers.
  pub record UserController : Type 0 where
    pub register : Handler S
    pub login : Handler S
    pub refresh_token : Handler S

  pub record TaskController : Type 0 where
    pub create_task : Handler S
    pub get_task : Handler S
    pub get_tasks_by_user : Handler S

  -- A route with its full path and the middlewares of its group, in the order of registration.
  pub record Route : Type 0 where
    pub method : Method
    pub path : String
    pub middlewares : List (Middleware S)
    pub handler : Handler S

module _ {S : Type 0} where
  -- group.POST and group.GET
  abbrev pub route : Method → String → List (Middleware S) → Handler S → Route S
  route method path middlewares handler = record {
    method = method;
    path = path;
    middlewares = middlewares;
    handler = handler;
  }

  -- How a request is answered.
  abbrev pub serve : Engine S → Route S → Handler S
  serve e r = e.chain r.middlewares r.handler

  module _ (j : Jwt) (jwt_secret : Text) where
    unfoldable pub auth_group : ScriptRunner S → Moment → List (Middleware S)
    auth_group redis m = rate_limiter_middleware redis strict_rate_limiter m.unix ∷ []

    unfoldable pub api : ScriptRunner S → Moment → List (Middleware S)
    api redis m =
        rate_limiter_middleware redis default_rate_limiter_config m.unix
        ∷ auth_middleware j m.checked_at jwt_secret
        ∷ []

    -- The routes for a request, with the scripts of the two limiters.
    unfoldable pub routes_at :
        ScriptRunner S
        → ScriptRunner S
        → (Moment → UserController S)
        → TaskController S
        → Moment
        → List (Route S)
    routes_at strict default user_ctrl task_ctrl m =
        route post "/auth/register" (auth_group strict m) (user_ctrl m).register
        ∷ route post "/auth/login" (auth_group strict m) (user_ctrl m).login
        ∷ route post "/auth/refresh" (auth_group strict m) (user_ctrl m).refresh_token
        ∷ route post "/api/v1/tasks" (api default m) task_ctrl.create_task
        ∷ route get "/api/v1/tasks/:id" (api default m) task_ctrl.get_task
        ∷ route get "/api/v1/users/tasks" (api default m) task_ctrl.get_tasks_by_user
        ∷ []

    -- Each limiter loads the script when it is made.
    unfoldable pub setup_routes :
        ScriptLoader S
        → (Moment → UserController S)
        → TaskController S
        → M S (Moment → List (Route S))
    setup_routes redis user_ctrl task_ctrl = load_script redis >>= λ strict.
        load_script redis >>= λ default. pure (routes_at strict default user_ctrl task_ctrl)

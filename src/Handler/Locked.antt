-- ===== src/Handler/Locked.antt =====
-- The order of the middlewares in internal/handler/handler.go.
use mathlib.Core.Path.{subst}
use async_task_orchestrator.Prelude.{List, ◌∷◌, All, Text, ◌≡◌, ap, ◌∙◌, sym, none}
use async_task_orchestrator.Go.{ok, pure, bind-ok, ok-injective, ◌>>=◌}
use async_task_orchestrator.Http.{Context, get_key, failure, Handler, Middleware, Engine}
use async_task_orchestrator.Limiter.Config.{RateLimiterConfig}
use async_task_orchestrator.Auth.Jwt.{Jwt}
use async_task_orchestrator.Middleware.RateLimit.{
  ScriptRunner, ScriptLoader, load_script, limit, rate_limiter_middleware,
}
use async_task_orchestrator.Handler.{
  Moment, UserController, TaskController, Route, serve, auth_group, api, routes_at, setup_routes,
}

-- The route answers the request with 401, and changes nothing.
abbrev pub Locked : {S : Type 0} → Engine S → Context → S → Route S → Type 0
Locked e ctx s r =
    serve e r ctx s ≡ (ok (failure 401 "Unauthorized - user_id not found in context"), s)

module _ {S : Type 0} (m : Moment) where
  limiter-locked :
      (redis : ScriptRunner S) (cfg : RateLimiterConfig) (next : Handler S) (ctx : Context) (s : S)
      → get_key "userID" ctx.keys ≡ none
      → rate_limiter_middleware redis cfg m.unix next ctx s
        ≡ (ok (failure 401 "Unauthorized - user_id not found in context"), s)
  unfolding rate_limiter_middleware limit
  limiter-locked redis cfg next ctx s h = rw h

  first-locked :
      (e : Engine S) (redis : ScriptRunner S) (cfg : RateLimiterConfig) (ms : List (Middleware S))
      (h : Handler S) (ctx : Context) (s : S)
      → get_key "userID" ctx.keys ≡ none
      → e.chain (rate_limiter_middleware redis cfg m.unix ∷ ms) h ctx s
        ≡ (ok (failure 401 "Unauthorized - user_id not found in context"), s)
  first-locked e redis cfg ms h ctx s none_set =
      ap (λ f. f ctx s) (e.chain_cons (rate_limiter_middleware redis cfg m.unix) ms h)
      ∙ limiter-locked redis cfg (e.chain ms h) ctx s none_set

  routes_at-Locked :
      (e : Engine S) (j : Jwt) (jwt_secret : Text) (strict default : ScriptRunner S)
      (u : Moment → UserController S) (t : TaskController S) (ctx : Context) (s : S)
      → get_key "userID" ctx.keys ≡ none
      → All (Locked e ctx s) (routes_at j jwt_secret strict default u t m)
  unfolding routes_at auth_group api
  routes_at-Locked e j jwt_secret strict default u t ctx s h = (
    first-locked e strict _ _ _ ctx s h,
    (
      first-locked e strict _ _ _ ctx s h,
      (
        first-locked e strict _ _ _ ctx s h,
        (
          first-locked e default _ _ _ ctx s h,
          (first-locked e default _ _ _ ctx s h, (first-locked e default _ _ _ ctx s h, tt)),
        ),
      ),
    ),
  )

-- Once setupRoutes has loaded its scripts, every route answers 401 to every request that arrives
-- without a user in its context, whatever token it carries, at any time, and changes nothing.
pub setup_routes-Locked :
    {S : Type 0} (redis : ScriptLoader S) (e : Engine S) (j : Jwt) (jwt_secret : Text)
    (u : Moment → UserController S) (t : TaskController S) (s : S)
    (routes : Moment → List (Route S))
    → (setup_routes j jwt_secret redis u t s).0 ≡ ok routes
    → (m : Moment) (ctx : Context) (later : S) → get_key "userID" ctx.keys ≡ none
    → All (Locked e ctx later) (routes m)
unfolding setup_routes
setup_routes-Locked redis e j jwt_secret u t s routes made m ctx later h =
    let rest = λ (strict : ScriptRunner _).
      load_script redis >>= λ default. pure (routes_at j jwt_secret strict default u t) in
    let (strict, first, same) = bind-ok (load_script redis) rest s routes made in
    let s' = (load_script redis s).1 in
    let (default, second, same') =
      bind-ok (load_script redis) (λ default. pure (routes_at j jwt_secret strict default u t)) s'
        routes (sym (ap (λ x. x.0) same) ∙ made) in
    let e' : routes_at j jwt_secret strict default u t ≡ routes =
      ok-injective (sym (ap (λ x. x.0) (same ∙ same')) ∙ made) in
    subst (λ r. All (Locked e ctx later) (r m)) e'
      (routes_at-Locked m e j jwt_secret strict default u t ctx later h)

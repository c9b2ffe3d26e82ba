-- ===== src/Middleware/Tests.antt =====
-- A request with a token, and one of a known user.
use async_task_orchestrator.Limiter.Script.{run_script, ttl}
use async_task_orchestrator.Limiter.Config.{strict_rate_limiter}
use async_task_orchestrator.Limiter.Store.{answers, eval_script}
use async_task_orchestrator.Middleware.Users.{
  answers_to, times_of, Visit, answered, rate_limiter_users,
}
use async_task_orchestrator.Prelude.{
  ◌*◌, ◌≡◌, ◌⊎◌, refl, pos, Text, codes, [], ◌∷◌, ◌++◌, none, arith, List, some, map,
}
use async_task_orchestrator.Go.{ok, pure}
use async_task_orchestrator.Http.{Context, int, set_key, Response, failure, Handler, get_key}
use async_task_orchestrator.Auth.Jwt.{second, access_token, validate_token, key_of, checked}
use async_task_orchestrator.Auth.Context.{user_id_key}
use async_task_orchestrator.Middleware.RateLimit.{integer, user_rate_limiter_key}
use async_task_orchestrator.Middleware.Auth.{auth_middleware}
use async_task_orchestrator.Middleware.Gate.{
  Authenticated, auth_middleware-admits, auth_middleware_cases,
}
use async_task_orchestrator.Middleware.Limits.{user_rate_limiter_key-injective}
use async_task_orchestrator.Samples.Signer.{clear}
use async_task_orchestrator.Samples.Redis.{Limits, runner, runner-ScriptLaws}

abbrev secret : Text
secret = 1 ∷ 2 ∷ []

abbrev access : Text
access = 0 ∷ 5 ∷ 0 ∷ 900 * second ∷ 0 ∷ 0 ∷ secret

abbrev request : Context
request = record {
  authorization = codes "Bearer" ++ 32 ∷ access;
  id_param = [];
  body = [];
  keys = [];
}

abbrev known : Context
known = set_key user_id_key (int (pos 5)) request

abbrev reply : Handler Limits
reply ctx = pure (failure 200 "done")

abbrev empty : Limits
empty key = none

access_valid :
    validate_token clear second access secret
    ≡ ok (record {
      user_id = pos 5;
      type = access_token;
      expires_at = 900 * second;
      issued_at = 0;
      not_before = 0;
    })
unfolding validate_token checked key_of
access_valid = refl

abbrev authenticated : Authenticated clear second secret reply request
authenticated = record {
  token = access;
  claims = _;
  header = refl;
  valid = access_valid;
  access = refl;
}

auth_middleware-admits_test : auth_middleware clear second secret reply request ≡ reply known
auth_middleware-admits_test =
    auth_middleware-admits clear second secret reply request authenticated (ground arith)

auth_middleware_cases_example :
    ((a : Authenticated clear second secret reply request) × (auth_middleware clear second secret
          reply request empty
        ≡ reply (set_key user_id_key (int a.claims.user_id) request) empty))
    ⊎ ((r : Response) × (r.status ≡ 401)
        × (auth_middleware clear second secret reply request empty ≡ (ok r, empty)))
auth_middleware_cases_example = auth_middleware_cases clear second secret reply request empty

user_rate_limiter_key-injective_test : pos 5 ≡ pos 5
user_rate_limiter_key-injective_test = user_rate_limiter_key-injective (pos 5) (pos 5) refl

known_user : get_key "userID" known.keys ≡ some (int (pos 5))
unfolding get_key
known_user = refl

abbrev sixth : Context
sixth = set_key user_id_key (int (pos 6)) request

sixth_user : get_key "userID" sixth.keys ≡ some (int (pos 6))
unfolding get_key
sixth_user = refl

-- Four requests of the fifth user within two seconds, with one of the sixth among them.
abbrev visits : List Visit
visits =
    record { user = pos 5; now = 100; ctx = known; known = known_user }
    ∷ record { user = pos 5; now = 100; ctx = known; known = known_user }
    ∷ record { user = pos 6; now = 100; ctx = sixth; known = sixth_user }
    ∷ record { user = pos 5; now = 101; ctx = known; known = known_user }
    ∷ record { user = pos 5; now = 101; ctx = known; known = known_user }
    ∷ []

rate_limiter_users_example :
    answers_to runner strict_rate_limiter reply (pos 5) visits empty
    ≡ map (answered strict_rate_limiter (failure 200 "done")) (
        answers strict_rate_limiter
          (runner-ScriptLaws.entry (user_rate_limiter_key (pos 5)) empty)
          (times_of (pos 5) visits))
rate_limiter_users_example =
    rate_limiter_users runner strict_rate_limiter reply runner-ScriptLaws (failure 200 "done")
      (λ key now s. (integer (pos (eval_script strict_rate_limiter now (s key)).0), refl))
      (λ ctx s. refl) (λ key ctx s. refl) (pos 5) visits empty

-- The fourth of them is refused.
visits_test : answers strict_rate_limiter none (times_of (pos 5) visits) ≡ 1 ∷ 1 ∷ 1 ∷ 0 ∷ []
unfolding times_of answers eval_script run_script ttl strict_rate_limiter
visits_test = refl

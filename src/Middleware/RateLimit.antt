-- ===== src/Middleware/RateLimit.antt =====
-- internal/middleware/rate_limiter.go: the handler. Redis and its client are not part of the
-- repository: EVALSHA is a parameter.
use async_task_orchestrator.Prelude.{
  ℕ, ◌/◌, ℤ, pos, ◌=ℤ◌, String, Option, none, some, [], ◌∷◌, ◌++◌, if◌then◌else◌, Text, codes,
}
use async_task_orchestrator.Go.{M, pure, throw, handle}
use async_task_orchestrator.Http.{
  Any, int, other, get_key, failure, Response, str, num, rate, Middleware,
}
use async_task_orchestrator.Limiter.Config.{RateLimiterConfig}
use async_task_orchestrator.Fmt.{decimal}

-- What a script returns: an int64, or a value of another type.
pub data Reply : Type 0 where
  integer : ℤ → Reply
  other_reply : String → Reply

-- redisClient.EvalSha of the loaded script with one key, the capacity, the rate and the time in
-- epoch seconds.
pub record ScriptRunner (S : Type 0) : Type 0 where
  pub eval_sha : Text → RateLimiterConfig → ℕ → M S Reply

-- redisClient.ScriptLoad of rate_limiter.lua, and EVALSHA of the hash that it gave.
pub record ScriptLoader (S : Type 0) : Type 0 where
  pub script_load : M S (ScriptRunner S)

-- The script is loaded when the middleware is made. logrus.Fatal ends the process.
unfoldable pub load_script : {S : Type 0} → ScriptLoader S → M S (ScriptRunner S)
load_script redis =
    handle redis.script_load pure (λ e. throw "Failed to load Lua script for rate limiter")

-- fmt.Sprintf("rate_limiter:user:%d", userID)
unfoldable pub user_rate_limiter_key : ℤ → Text
user_rate_limiter_key user_id = codes "rate_limiter:user:" ++ decimal user_id

-- `int(config.RefillRate)` and `1.0/config.RefillRate` stand in the texts of the answer.
unfoldable pub too_many_requests : RateLimiterConfig → Response
too_many_requests config = record {
  status = 429;
  body =
      ("error", str "Rate limit exceeded")
      ∷ ("message", num (pos (config.refill_rate.num / config.refill_rate.den)))
      ∷ (
        "retry_after",
        rate (record { num = config.refill_rate.den; den = config.refill_rate.num }),
      )
      ∷ [];
}

module _ {S : Type 0} (redis : ScriptRunner S) (config : RateLimiterConfig) (now : ℕ) where
  -- `allowed := result.(int64); if allowed == 0 { … }`
  unfoldable pub decide : Reply → Middleware S
  decide (integer allowed) next ctx =
      if allowed =ℤ pos 0 then pure (too_many_requests config) else next ctx
  decide (other_reply s) next ctx = throw "interface conversion"

  -- `userID.(int)` and the script; the request goes on if Redis fails.
  unfoldable pub limit : Option Any → Middleware S
  limit none next ctx = pure (failure 401 "Unauthorized - user_id not found in context")
  limit (some (other s)) next ctx = throw "interface conversion"
  limit (some (int user_id)) next ctx =
      handle (redis.eval_sha (user_rate_limiter_key user_id) config now)
        (λ result. decide result next ctx) (λ _. next ctx)

  unfoldable pub rate_limiter_middleware : Middleware S
  rate_limiter_middleware next ctx = limit (get_key "userID" ctx.keys) next ctx

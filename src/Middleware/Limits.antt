-- ===== src/Middleware/Limits.antt =====
-- RateLimiterMiddleware of internal/middleware/rate_limiter.go on top of the script's bucket.
use async_task_orchestrator.Prelude.{
  ==_iff, ℕ, ◌==◌, ℤ, pos, ◌≡◌, ◌≢◌, arith, Bool-cases, inl, inr, Option, some, Text, codes,
  if◌then◌else◌,
}
use mathlib.Core.List.{append_cancel_left}
use async_task_orchestrator.Go.{ok, M}
use async_task_orchestrator.Http.{int, Context, get_key, Handler, Response}
use async_task_orchestrator.Limiter.Config.{RateLimiterConfig}
use async_task_orchestrator.Limiter.Script.{run_script}
use async_task_orchestrator.Limiter.Store.{Entry, eval_script}
use async_task_orchestrator.Fmt.RoundTrip.{decimal-injective}
use async_task_orchestrator.Middleware.RateLimit.{
  Reply, integer, ScriptRunner, user_rate_limiter_key, too_many_requests, decide, limit,
  rate_limiter_middleware,
}

-- What Redis holds under each key, and that EVALSHA, if it succeeds, has run the script on the
-- hash of its key and on nothing else.
pub record ScriptLaws {S : Type 0} (redis : ScriptRunner S) : Type 0 where
  pub entry : Text → S → Option Entry
  pub runs :
      (key : Text) (cfg : RateLimiterConfig) (now : ℕ) (s : S) (r : Reply)
      → (redis.eval_sha key cfg now s).0 ≡ ok r
      → (r ≡ integer (pos (eval_script cfg now (entry key s)).0))
        × (entry key (redis.eval_sha key cfg now s).1 ≡ some (eval_script cfg now (entry key s)).1)
  pub others :
      (key other : Text) (cfg : RateLimiterConfig) (now : ℕ) (s : S)
      → key ≢ other
      → entry other (redis.eval_sha key cfg now s).1 ≡ entry other s

-- Different users have different keys.
pub user_rate_limiter_key-injective :
    (a b : ℤ) → user_rate_limiter_key a ≡ user_rate_limiter_key b → a ≡ b
unfolding user_rate_limiter_key
user_rate_limiter_key-injective a b h =
    decimal-injective a b (append_cancel_left (codes "rate_limiter:user:") _ _ h)

eval_script-bit :
    (cfg : RateLimiterConfig) (now : ℕ) (e : Option Entry)
    → (eval_script cfg now e).0 ≢ 0
    → (eval_script cfg now e).0 ≡ 1
unfolding eval_script run_script
eval_script-bit cfg now e h = ground arith

module _ {S : Type 0} where
  choice :
      (n : ℕ)
      → (n ≢ 0 → n ≡ 1)
      → (refuse go_on : M S Response) (s : S)
      → (if n == 0 then refuse else go_on) s ≡ (if n == 1 then go_on s else refuse s)
  choice n h refuse go_on s = elim (Bool-cases (n == 0)) [
    | inl zero' ↦ rw ((==_iff n 0).0 zero')
    | inr other ↦ rw (h (λ e. ground arith))
  ]

module _ {S : Type 0} (redis : ScriptRunner S) (laws : ScriptLaws redis) where
  open laws use {entry}

  pub rate_limiter_runs :
      (cfg : RateLimiterConfig) (now : ℕ) (next : Handler S) (ctx : Context) (s : S) (id : ℤ)
      (r : Reply)
      → get_key "userID" ctx.keys ≡ some (int id)
      → (redis.eval_sha (user_rate_limiter_key id) cfg now s).0 ≡ ok r
      → let s' = (redis.eval_sha (user_rate_limiter_key id) cfg now s).1 in
        rate_limiter_middleware redis cfg now next ctx s ≡ (
          if (eval_script cfg now (entry (user_rate_limiter_key id) s)).0 == 1
          then next ctx s'
          else (ok (too_many_requests cfg), s'))
  unfolding rate_limiter_middleware limit decide
  rate_limiter_runs cfg now next ctx s id r user ran =
      let (reply, written) = laws.runs (user_rate_limiter_key id) cfg now s r ran in
      rw user (rw ran (rw reply (choice _ (eval_script-bit cfg now _) _ _ _)))

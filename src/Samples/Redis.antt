-- ===== src/Samples/Redis.antt =====
-- A cache and a runner of the rate limiter's script in memory.
use async_task_orchestrator.Prelude.{
  pos, ◌≡◌, ◌≢◌, refl, arith, inr, Option, some, if◌then◌else◌, Text, text_eq, text_eq→eq,
  text_eq_refl,
}
use async_task_orchestrator.Go.{ok}
use async_task_orchestrator.Limiter.Store.{Entry, eval_script}
use async_task_orchestrator.Middleware.RateLimit.{integer, ScriptRunner}
use async_task_orchestrator.Middleware.Limits.{ScriptLaws}
use async_task_orchestrator.Cache.{RedisClient}
use async_task_orchestrator.Task.Caching.{RedisLaws}

abbrev put_at {ℓ} : {A : Type ℓ} → Text → A → (Text → Option A) → Text → Option A
put_at k v s j = if text_eq k j then some v else s j

put_at-same {ℓ} : {A : Type ℓ} (k : Text) (v : A) (s : Text → Option A) → put_at k v s k ≡ some v
put_at-same k v s = rw (text_eq_refl k)

put_at-other {ℓ} :
    {A : Type ℓ} (k j : Text) (v : A) (s : Text → Option A) → k ≢ j → put_at k v s j ≡ s j
put_at-other k j v s h = ground (arith, text_eq→eq k j)

abbrev pub store : RedisClient
store = record {
  Store = Text → Option Text;
  get = λ k s. (ok (s k), s);
  put = λ k v ttl s. (ok tt, put_at k v s);
}

pub store-RedisLaws : RedisLaws store
store-RedisLaws = record {
  value = λ k s. s k;
  get_value = λ k s o h. cc;
  get_keeps = λ k j s. refl;
  put_at = λ k v ttl s. inr (put_at-same k v s);
  put_done = λ k v ttl s h. put_at-same k v s;
  put_others = λ k j v ttl s h. put_at-other k j v s h;
}

abbrev pub Limits : Type 0
Limits = Text → Option Entry

abbrev pub runner : ScriptRunner Limits
runner = record {
  eval_sha = λ key cfg now s.
      let (allowed, e) = eval_script cfg now (s key) in
      (ok (integer (pos allowed)), put_at key e s);
}

pub runner-ScriptLaws : ScriptLaws runner
runner-ScriptLaws = record {
  entry = λ key s. s key;
  runs = λ key cfg now s r h. (cc, put_at-same key _ s);
  others = λ key other cfg now s h. put_at-other key other _ s h;
}

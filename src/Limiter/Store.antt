-- ===== src/Limiter/Store.antt =====
-- The hash of one key in Redis over a sequence of requests, with and without its time to live.
use async_task_orchestrator.Prelude.{ℕ, ◌+◌, Option, none, some, List, [], ◌∷◌, leb, if◌then◌else◌}
use async_task_orchestrator.Limiter.Config.{RateLimiterConfig}
use async_task_orchestrator.Limiter.Script.{Bucket, run_script, ttl}

-- What Redis holds under the key: the hash, and the second at which EXPIRE removes it.
pub record Entry : Type 0 where
  pub bucket : Bucket
  pub expires_at : ℕ

-- HMGET at `now` finds nothing in an entry that has run out.
unfoldable pub read : ℕ → Option Entry → Option Bucket
read now none = none
read now (some e) = if leb e.expires_at now then none else some e.bucket

module _ (cfg : RateLimiterConfig) where
  -- The script as Redis runs it: HMGET, the bucket, HMSET and EXPIRE.
  unfoldable pub eval_script : ℕ → Option Entry → ℕ × Entry
  unfolding read
  eval_script now e =
      let (allowed, b) = run_script cfg now (read now e) in
      (allowed, record { bucket = b; expires_at = now + ttl cfg })

  -- The answers to requests at the given times.
  unfoldable pub answers : Option Entry → List ℕ → List ℕ
  answers e [] = []
  answers e (now ∷ times) =
      let (allowed, e') = eval_script now e in allowed ∷ answers (some e') times

  -- The same for a bucket that never expires: the answers, and the bucket at the end.
  unfoldable pub answers_kept : Option Bucket → List ℕ → List ℕ
  answers_kept b [] = []
  answers_kept b (now ∷ times) =
      let (allowed, b') = run_script cfg now b in allowed ∷ answers_kept (some b') times

  unfoldable pub after_kept : Bucket → List ℕ → Bucket
  after_kept b [] = b
  after_kept b (now ∷ times) = after_kept (run_script cfg now (some b)).1 times

abbrev pub sum : List ℕ → ℕ
sum [] = 0
sum (x ∷ xs) = x + sum xs

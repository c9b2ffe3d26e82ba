-- ===== src/Limiter/Bound.antt =====
-- How many requests the token bucket of rate_limiter.lua lets through: potential-style bounds on
-- one run of the script and on any sequence of runs.
use async_task_orchestrator.Prelude.{ℕ, ◌+◌, ◌-◌, ◌*◌, ◌≤◌, some, List, [], ◌∷◌, arith, All}
use async_task_orchestrator.Limiter.Config.{RateLimiterConfig}
use async_task_orchestrator.Limiter.Script.{Bucket, full, run_script}
use async_task_orchestrator.Limiter.Store.{answers_kept, after_kept, sum}

module _ (cfg : RateLimiterConfig) where
  -- The bucket holds no more than the capacity.
  abbrev pub IsBounded : Bucket → Type 0
  IsBounded b = b.tokens ≤ full cfg

  pub run_script-IsBounded :
      (now : ℕ) (b : Bucket) → IsBounded b → IsBounded (run_script cfg now (some b)).1
  unfolding run_script
  run_script-IsBounded now b h = ground arith

  -- What a run gives out was in the bucket or was refilled.
  spend :
      (now : ℕ) (b : Bucket)
      → let (allowed, b') = run_script cfg now (some b) in
        b'.tokens + allowed * cfg.refill_rate.den
        ≤ b.tokens + (b'.last_refill - b.last_refill) * cfg.refill_rate.num
  unfolding run_script
  spend now b = ground arith

  last_refill_grows :
      (now : ℕ) (b : Bucket) → b.last_refill ≤ (run_script cfg now (some b)).1.last_refill
  unfolding run_script
  last_refill_grows now b = ground arith

  last_refill-le :
      (now limit : ℕ) (b : Bucket)
      → b.last_refill ≤ limit
      → now ≤ limit
      → (run_script cfg now (some b)).1.last_refill ≤ limit
  unfolding run_script
  last_refill-le now limit b h k = ground arith

  after_kept-grows :
      (b : Bucket) (times : List ℕ) → b.last_refill ≤ (after_kept cfg b times).last_refill
  unfolding after_kept
  after_kept-grows b [] = omega arith
  after_kept-grows b (now ∷ times) =
      omega (arith, last_refill_grows now b, after_kept-grows (run_script cfg now (some b)).1 times)

  after_kept-le :
      (b : Bucket) (times : List ℕ) (limit : ℕ)
      → b.last_refill ≤ limit
      → All (λ t. t ≤ limit) times
      → (after_kept cfg b times).last_refill ≤ limit
  unfolding after_kept
  after_kept-le b [] limit h a = h
  after_kept-le b (now ∷ times) limit h (k, a) =
      after_kept-le (run_script cfg now (some b)).1 times limit (last_refill-le now limit b h k) a

  spend_all :
      (b : Bucket) (times : List ℕ)
      → let b' = after_kept cfg b times in
        b'.tokens + sum (answers_kept cfg (some b) times) * cfg.refill_rate.den
        ≤ b.tokens + (b'.last_refill - b.last_refill) * cfg.refill_rate.num
  unfolding after_kept answers_kept
  spend_all b [] = omega arith
  spend_all b (now ∷ times) =
      let b' = (run_script cfg now (some b)).1 in
      grind
        (arith, spend now b, last_refill_grows now b, after_kept-grows b' times, spend_all b' times)

  -- Whatever the times of the requests and their order, up to the latest time no more are let
  -- through than the bucket held and the seconds since its last refill have refilled.
  pub allowed_bound :
      (b : Bucket) (times : List ℕ) (limit : ℕ)
      → b.last_refill ≤ limit
      → All (λ t. t ≤ limit) times
      → sum (answers_kept cfg (some b) times) * cfg.refill_rate.den
        ≤ b.tokens + (limit - b.last_refill) * cfg.refill_rate.num
  allowed_bound b times limit h a =
      grind (arith, spend_all b times, after_kept-le b times limit h a, after_kept-grows b times)

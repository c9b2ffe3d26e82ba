-- ===== src/Limiter/Burst.antt =====
-- What a client of rate_limiter.lua can rely on: the burst at one instant, and a request after a
-- pause that is long enough for one token.
use async_task_orchestrator.Prelude.{
  ℕ, zero, suc, ◌-◌, ◌*◌, ◌≤◌, ◌<◌, ◌≡◌, min, refl, Option, none, some, List, [], ◌∷◌, arith,
}
use async_task_orchestrator.Limiter.Config.{RateLimiterConfig}
use async_task_orchestrator.Limiter.Script.{Bucket, run_script}
use async_task_orchestrator.Limiter.Store.{Entry, answers, answers_kept, eval_script, sum}
use async_task_orchestrator.Limiter.Expiry.{NonDecreasing, answers-eq-kept}

-- `n` requests at the same second.
abbrev pub burst : ℕ → ℕ → List ℕ
burst zero now = []
burst (suc n) now = now ∷ burst n now

burst-NonDecreasing : (n now : ℕ) → NonDecreasing now (burst n now)
burst-NonDecreasing zero now = tt
burst-NonDecreasing (suc n) now = (omega arith, burst-NonDecreasing n now)

burst-NonDecreasing_first : (n now : ℕ) → NonDecreasing 0 (burst n now)
burst-NonDecreasing_first zero now = tt
burst-NonDecreasing_first (suc n) now = (omega arith, burst-NonDecreasing n now)

module _ (cfg : RateLimiterConfig) (whole : 0 < cfg.refill_rate.den) where
  abbrev holding : ℕ → ℕ → Bucket
  holding k now = record { tokens = k * cfg.refill_rate.den; last_refill = now }

  run_script-empty : (now : ℕ) → run_script cfg now (some (holding 0 now)) ≡ (0, holding 0 now)
  unfolding run_script
  run_script-empty now = ground arith

  run_script-holding :
      (k now : ℕ) → run_script cfg now (some (holding (suc k) now)) ≡ (1, holding k now)
  unfolding run_script
  run_script-holding k now = grind arith

  burst-kept : (n k now : ℕ) → sum (answers_kept cfg (some (holding k now)) (burst n now)) ≡ min n k
  unfolding answers_kept
  burst-kept zero k now = omega arith
  burst-kept (suc n) zero now = rw (run_script-empty now) (omega (arith, burst-kept n zero now))
  burst-kept (suc n) (suc k) now = rw (run_script-holding k now) (omega (arith, burst-kept n k now))

  run_script-first :
      (now : ℕ) → run_script cfg now none ≡ run_script cfg now (some (holding cfg.capacity now))
  unfolding run_script
  run_script-first now = ground arith

  answers_kept-first :
      (n now : ℕ)
      → answers_kept cfg none (burst n now)
        ≡ answers_kept cfg (some (holding cfg.capacity now)) (burst n now)
  unfolding answers_kept
  answers_kept-first zero now = refl
  answers_kept-first (suc n) now = rw (run_script-first now)

  -- Of `n` requests of a new key at one second exactly the first `capacity` are let through, when
  -- the rate is not zero.
  pub burst-capacity :
      (n now : ℕ)
      → 0 < cfg.refill_rate.num
      → sum (answers cfg none (burst n now)) ≡ min n cfg.capacity
  burst-capacity n now h =
      rw
        (
          answers-eq-kept cfg h (burst n now) (burst-NonDecreasing_first n now),
          answers_kept-first n now,
        )
        (burst-kept n cfg.capacity now)

  -- A request is let through, whatever Redis holds for its key, if since the last refill there
  -- was time for one token and the capacity is not zero.
  pub waiting_allowed :
      (now : ℕ) (e : Option Entry)
      → 0 < cfg.capacity
      → ((x : Entry)
          → e ≡ some x
          → cfg.refill_rate.den ≤ (now - x.bucket.last_refill) * cfg.refill_rate.num)
      → (eval_script cfg now e).0 ≡ 1
  unfolding eval_script run_script
  waiting_allowed now none h w = grind arith
  waiting_allowed now (some x) h w = grind (arith, w x refl)

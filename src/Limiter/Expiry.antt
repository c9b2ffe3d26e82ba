-- ===== src/Limiter/Expiry.antt =====
-- The EXPIRE of internal/middleware/rate_limiter.lua, against a bucket that is kept for ever.
use mathlib.Core.Path.{subst}
use async_task_orchestrator.Prelude.{
  sym, All, ℕ, ◌+◌, ◌-◌, ◌*◌, ◌≤◌, ◌<◌, ◌≡◌, refl, none, some, List, [], ◌∷◌, arith, ap, Bool-cases,
  leb, inl, inr,
}
use async_task_orchestrator.Limiter.Config.{RateLimiterConfig}
use async_task_orchestrator.Limiter.Script.{Bucket, full, run_script, ttl}
use async_task_orchestrator.Limiter.Store.{answers, answers_kept, eval_script, sum}
use async_task_orchestrator.Limiter.Bound.{allowed_bound, IsBounded, run_script-IsBounded}

-- The times do not fall, and none is before `t`.
abbrev pub NonDecreasing : ℕ → List ℕ → Type 0
NonDecreasing t [] = Unit
NonDecreasing t (now ∷ times) = (t ≤ now) × NonDecreasing now times

module _ (cfg : RateLimiterConfig) (positive : 0 < cfg.refill_rate.num) where
  -- The time to live is long enough for a whole refill.
  full-le-ttl : full cfg ≤ ttl cfg * cfg.refill_rate.num
  unfolding ttl
  full-le-ttl = grind arith

  -- A bucket that has had its time to live behaves like a new one.
  run_script-expired :
      (now : ℕ) (b : Bucket)
      → IsBounded cfg b
      → b.last_refill + ttl cfg ≤ now
      → run_script cfg now (some b) ≡ run_script cfg now none
  unfolding run_script
  run_script-expired now b h k = grind (arith, full-le-ttl)

  last_refill-now :
      (now : ℕ) (b : Bucket)
      → b.last_refill ≤ now
      → (run_script cfg now (some b)).1.last_refill ≡ now
  unfolding run_script
  last_refill-now now b h = ground arith

  eval_script-kept :
      (now : ℕ) (b : Bucket)
      → IsBounded cfg b
      → b.last_refill ≤ now
      → eval_script cfg now (some (record { bucket = b; expires_at = b.last_refill + ttl cfg })) ≡ (
          let (allowed, b') = run_script cfg now (some b) in
          (allowed, record { bucket = b'; expires_at = b'.last_refill + ttl cfg }))
  unfolding eval_script
  eval_script-kept now b h k = elim (Bool-cases (leb (b.last_refill + ttl cfg) now)) [
    | inl gone ↦ rw gone (ground (arith, run_script-expired now b h, last_refill-now now b k))
    | inr live ↦ rw live (ground (arith, last_refill-now now b k))
  ]

  answers-kept :
      (b : Bucket) (times : List ℕ)
      → IsBounded cfg b
      → NonDecreasing b.last_refill times
      → answers cfg (some (record { bucket = b; expires_at = b.last_refill + ttl cfg })) times
        ≡ answers_kept cfg (some b) times
  unfolding answers answers_kept
  answers-kept b [] h t = refl
  answers-kept b (now ∷ times) h (t, ts) =
      let b' = (run_script cfg now (some b)).1 in
      rw (eval_script-kept now b h t) (
        ap (λ l. (run_script cfg now (some b)).0 ∷ l)
          (answers-kept b' times (run_script-IsBounded cfg now b h)
            (subst (λ k. NonDecreasing k times) (sym (last_refill-now now b t)) ts)))

  first_run :
      (now : ℕ)
      → ((run_script cfg now none).1.last_refill ≡ now) × IsBounded cfg (run_script cfg now none).1
  unfolding run_script
  first_run now = ground arith

  -- For requests whose times do not fall, the answers of a key with a time to live are those of a
  -- key that is kept for ever, when the rate is not zero.
  pub answers-eq-kept :
      (times : List ℕ)
      → NonDecreasing 0 times
      → answers cfg none times ≡ answers_kept cfg none times
  unfolding answers answers_kept eval_script
  answers-eq-kept [] t = refl
  answers-eq-kept (now ∷ times) (_, ts) =
      let (at, bounded) = first_run now in
      let b' = (run_script cfg now none).1 in
      let same : answers cfg (some (record { bucket = b'; expires_at = b'.last_refill + ttl cfg }))
            times
          ≡ answers_kept cfg (some b') times =
        answers-kept b' times bounded (subst (λ k. NonDecreasing k times) (sym at) ts) in
      ap (λ l. (run_script cfg now none).0 ∷ l) (rw at at same)

  NonDecreasing-first :
      (now : ℕ) (times : List ℕ) → NonDecreasing now times → NonDecreasing 0 (now ∷ times)
  NonDecreasing-first now times h = (omega arith, h)

  first_spend :
      (now : ℕ)
      → let (allowed, b') = run_script cfg now none in
        b'.tokens + allowed * cfg.refill_rate.den ≤ full cfg
  unfolding run_script
  first_spend now = ground arith

  -- Token bucket bound for a new key: for times that do not fall and a rate that is not zero,
  -- from the first request to the latest one at most the capacity and what those seconds refill
  -- is let through, expiry included.
  pub answers_bound :
      (first : ℕ) (times : List ℕ) (limit : ℕ)
      → NonDecreasing first times
      → first ≤ limit
      → All (λ t. t ≤ limit) times
      → sum (answers cfg none (first ∷ times)) * cfg.refill_rate.den
        ≤ cfg.capacity * cfg.refill_rate.den + (limit - first) * cfg.refill_rate.num
  unfolding answers_kept
  answers_bound first times limit h k a =
      let (at, bounded) = first_run first in
      rw (answers-eq-kept (first ∷ times) (NonDecreasing-first first times h)) (
        grind (
          arith,
          first_spend first,
          allowed_bound cfg (run_script cfg first none).1 times limit (rw at k) a,
        ))

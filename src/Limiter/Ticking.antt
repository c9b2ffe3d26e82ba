-- ===== src/Limiter/Ticking.antt =====
-- The token bucket as the limiter's documentation has it, against which rate_limiter.lua is
-- compared: it never expires, and a clock refills it every second.
use async_task_orchestrator.Prelude.{
  ℕ, zero, suc, ◌+◌, ◌-◌, ◌*◌, ◌≤◌, ◌<◌, ◌≡◌, refl, ap, ◌∙◌, min, leb, if◌then◌else◌, none, some,
  List, [], ◌∷◌, arith, Bool-cases, inl, inr,
}
use async_task_orchestrator.Limiter.Config.{RateLimiterConfig}
use async_task_orchestrator.Limiter.Script.{Bucket, full, refill, initial, take_token, run_script}
use async_task_orchestrator.Limiter.Store.{answers, answers_kept}
use async_task_orchestrator.Limiter.Bound.{IsBounded}
use async_task_orchestrator.Limiter.Expiry.{NonDecreasing, answers-eq-kept}

module _ (cfg : RateLimiterConfig) where
  -- One second: the refill, up to the capacity.
  unfoldable pub tick : ℕ → ℕ
  tick tokens = min (full cfg) (tokens + cfg.refill_rate.num)

  unfoldable pub ticks : ℕ → ℕ → ℕ
  ticks zero tokens = tokens
  ticks (suc n) tokens = ticks n (tick tokens)

  -- The answers from the second `clock` on, when the bucket holds `tokens`.
  unfoldable pub ticking_answers : ℕ → ℕ → List ℕ → List ℕ
  ticking_answers clock tokens [] = []
  ticking_answers clock tokens (now ∷ times) =
      let filled = ticks (now - clock) tokens in
      let passed = ticking_answers now (filled - cfg.refill_rate.den) times in
      let refused = ticking_answers now filled times in
      if leb cfg.refill_rate.den filled then 1 ∷ passed else 0 ∷ refused

  ticks-min :
      (n tokens : ℕ)
      → tokens ≤ full cfg
      → ticks n tokens ≡ min (full cfg) (tokens + n * cfg.refill_rate.num)
  unfolding ticks tick
  ticks-min zero tokens h = grind arith
  ticks-min (suc n) tokens h =
      grind (arith, ticks-min n (min (full cfg) (tokens + cfg.refill_rate.num)))

  abbrev filled_at : ℕ → ℕ → Bucket
  filled_at tokens now = record { tokens = tokens; last_refill = now }

  -- The refill of the script gives what the clock has given.
  refill-ticks :
      (now : ℕ) (b : Bucket)
      → IsBounded cfg b
      → b.last_refill ≤ now
      → refill cfg now b ≡ filled_at (ticks (now - b.last_refill) b.tokens) now
  unfolding refill
  refill-ticks now b h m = rw (ticks-min (now - b.last_refill) b.tokens h) (ground arith)

  kept-ticking :
      (b : Bucket) (times : List ℕ)
      → IsBounded cfg b
      → NonDecreasing b.last_refill times
      → answers_kept cfg (some b) times ≡ ticking_answers b.last_refill b.tokens times
  unfolding answers_kept ticking_answers run_script initial take_token
  kept-ticking b [] h m = refl
  kept-ticking b (now ∷ times) h (m, more) =
      let filled = ticks (now - b.last_refill) b.tokens in
      let fits : filled ≤ full cfg = omega (arith, ticks-min (now - b.last_refill) b.tokens h) in
      elim (Bool-cases (leb cfg.refill_rate.den filled)) [
        | inl passes ↦
            rw (refill-ticks now b h m, passes)
              (ap (λ l. 1 ∷ l)
                (kept-ticking (filled_at (filled - cfg.refill_rate.den) now) times
                  (omega (arith, fits)) more))
        | inr refuses ↦
            rw (refill-ticks now b h m, refuses)
              (ap (λ l. 0 ∷ l) (kept-ticking (filled_at filled now) times fits more))
      ]

  run_script-new :
      (now : ℕ) → run_script cfg now none ≡ run_script cfg now (some (filled_at (full cfg) now))
  unfolding run_script
  run_script-new now = ground arith

  kept_first :
      (first : ℕ) (times : List ℕ)
      → answers_kept cfg none (first ∷ times)
        ≡ answers_kept cfg (some (filled_at (full cfg) first)) (first ∷ times)
  unfolding answers_kept
  kept_first first times = rw (run_script-new first) refl

  -- Of the limiter for a key that Redis does not hold, with a rate of whole tokens that is not zero
  -- and a capacity of at most 2^53, for which the script's doubles are exact, and requests whose
  -- times do not decrease: the answers of the script, which refills only when it is run and whose
  -- hash expires, are those of a bucket that starts full, is refilled every second, and is kept for
  -- good.
  pub answers-ticking :
      (first : ℕ) (times : List ℕ)
      → cfg.refill_rate.den ≡ 1
      → cfg.capacity ≤ 9007199254740992
      → 0 < cfg.refill_rate.num
      → NonDecreasing first times
      → answers cfg none (first ∷ times) ≡ ticking_answers first (full cfg) (first ∷ times)
  answers-ticking first times whole exact positive m =
      answers-eq-kept cfg positive (first ∷ times) (omega arith, m)
      ∙ kept_first first times
      ∙ kept-ticking (filled_at (full cfg) first) (first ∷ times) (omega arith) (omega arith, m)

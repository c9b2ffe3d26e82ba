-- ===== src/Limiter/Script.antt =====
-- internal/middleware/rate_limiter.lua: one run of the token bucket on the hash of one key.
-- Tokens are counted in units of `1 / den` token, so that every amount of the script is a whole
-- number: the capacity is `capacity * den` units, a second refills `num` units, and a request
-- takes `den` units. The script's numbers are doubles: for a rate of whole tokens they are whole
-- too, and exact up to 2^53; for a fraction such as 0.1 the script's sums are rounded, and the
-- amounts here are the exact ones, from which the script can differ by one request.
use async_task_orchestrator.Prelude.{
  ℕ, ◌+◌, ◌-◌, ◌*◌, ◌/◌, min, Option, none, some, ltb, leb, if◌then◌else◌,
}
use async_task_orchestrator.Limiter.Config.{RateLimiterConfig}

-- The fields "tokens" and "last_refill" of the hash; the time is in epoch seconds.
pub record Bucket : Type 0 where
  pub tokens : ℕ
  pub last_refill : ℕ

module _ (cfg : RateLimiterConfig) where
  -- The capacity in units.
  abbrev pub full : ℕ
  full = cfg.capacity * cfg.refill_rate.den

  unfoldable pub initial : ℕ → Option Bucket → Bucket
  initial now none = record { tokens = full; last_refill = now }
  initial now (some b) = b

  unfoldable pub refill : ℕ → Bucket → Bucket
  refill now b =
      if ltb b.last_refill now
      then record {
        tokens = min full (b.tokens + (now - b.last_refill) * cfg.refill_rate.num);
        last_refill = now;
      }
      else b

  -- The token test: the number that the script returns, and the hash that it writes.
  unfoldable pub take_token : Bucket → ℕ × Bucket
  take_token b =
      if leb cfg.refill_rate.den b.tokens
      then (1, record b { tokens = b.tokens - cfg.refill_rate.den })
      else (0, b)

  unfoldable pub run_script : ℕ → Option Bucket → ℕ × Bucket
  unfolding initial refill take_token
  run_script now stored = take_token (refill now (initial now stored))

  -- `math.ceil(capacity / refill_rate)`, the seconds given to EXPIRE; the rate is not zero.
  unfoldable pub ttl : ℕ
  ttl = (full + cfg.refill_rate.num - 1) / cfg.refill_rate.num

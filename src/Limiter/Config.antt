-- ===== src/Limiter/Config.antt =====
-- internal/middleware/rate_limiter.go and rate_limiter_presets.go: the limiter's settings.
use async_task_orchestrator.Prelude.{ℕ}

-- A refill rate as a fraction, `num / den` tokens per second. RefillRate is a float64: the presets
-- are exact in it but for the strict one, 0.1, which it rounds, and which is 1 / 10 here.
pub record Rate : Type 0 where
  pub num : ℕ
  pub den : ℕ

pub record RateLimiterConfig : Type 0 where
  pub capacity : ℕ
  pub refill_rate : Rate

unfoldable pub default_rate_limiter_config : RateLimiterConfig
default_rate_limiter_config = record { capacity = 20; refill_rate = record { num = 10; den = 1 } }

unfoldable pub strict_rate_limiter : RateLimiterConfig
strict_rate_limiter = record { capacity = 3; refill_rate = record { num = 1; den = 10 } }

unfoldable pub conservative_rate_limiter : RateLimiterConfig
conservative_rate_limiter = record { capacity = 10; refill_rate = record { num = 5; den = 1 } }

unfoldable pub moderate_rate_limiter : RateLimiterConfig
unfolding default_rate_limiter_config
moderate_rate_limiter = default_rate_limiter_config

unfoldable pub generous_rate_limiter : RateLimiterConfig
generous_rate_limiter = record { capacity = 100; refill_rate = record { num = 50; den = 1 } }

unfoldable pub unlimited_rate_limiter : RateLimiterConfig
unlimited_rate_limiter = record { capacity = 10000; refill_rate = record { num = 1000; den = 1 } }

unfoldable pub custom_rate_limiter : ℕ → Rate → RateLimiterConfig
custom_rate_limiter capacity refill_rate = record { capacity = capacity; refill_rate = refill_rate }

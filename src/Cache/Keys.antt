-- ===== src/Cache/Keys.antt =====
-- The keys of internal/cache/task_cache.go and of internal/middleware/rate_limiter.go.
use mathlib.Core.List.{append_cancel_left}
use async_task_orchestrator.Prelude.{ℤ, ◌≡◌, ◌≢◌, codes, arith, ◌↔◌, ap}
use async_task_orchestrator.Fmt.RoundTrip.{decimal-injective}
use async_task_orchestrator.Cache.{task_key, user_tasks_key}
use async_task_orchestrator.Middleware.RateLimit.{user_rate_limiter_key}

pub task_key-injective : (a b : ℤ) → task_key a ≡ task_key b → a ≡ b
unfolding task_key
task_key-injective a b h = decimal-injective a b (append_cancel_left (codes "task:") _ _ h)

pub user_tasks_key-injective : (a b : ℤ) → user_tasks_key a ≡ user_tasks_key b → a ≡ b
unfolding user_tasks_key
user_tasks_key-injective a b h =
    decimal-injective a b (append_cancel_left (codes "tasks:user:") _ _ h)

pub task_key-ne-user_tasks_key : (a b : ℤ) → task_key a ≢ user_tasks_key b
unfolding task_key user_tasks_key
task_key-ne-user_tasks_key a b h = ground arith

-- The keys of a task, of the tasks of a user and of the rate limit of a user tell which of the
-- three it is, and which task or user.
pub keys_apart :
    (a b : ℤ)
    → ((task_key a ≡ task_key b) ↔ (a ≡ b))
      × ((user_tasks_key a ≡ user_tasks_key b) ↔ (a ≡ b))
      × (task_key a ≢ user_tasks_key b)
      × (task_key a ≢ user_rate_limiter_key b)
      × (user_tasks_key a ≢ user_rate_limiter_key b)
unfolding task_key user_tasks_key user_rate_limiter_key
keys_apart a b = (
  (task_key-injective a b, ap task_key),
  (user_tasks_key-injective a b, ap user_tasks_key),
  task_key-ne-user_tasks_key a b,
  (λ h. ground arith),
  λ h. ground arith,
)

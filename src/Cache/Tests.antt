-- ===== src/Cache/Tests.antt =====
-- The keys of small numbers.
use async_task_orchestrator.Prelude.{◌≡◌, ◌↔◌, ◌≢◌, refl, pos, codes}
use async_task_orchestrator.Fmt.{decimal, decimal_nat, digits}
use async_task_orchestrator.Cache.{task_key, user_tasks_key}
use async_task_orchestrator.Cache.Keys.{keys_apart}
use async_task_orchestrator.Middleware.RateLimit.{user_rate_limiter_key}

key_text : task_key (pos 12) ≡ codes "task:12"
unfolding task_key decimal decimal_nat digits
key_text = refl

keys_apart_test :
    ((task_key (pos 1) ≡ task_key (pos 11)) ↔ (pos 1 ≡ pos 11))
    × ((user_tasks_key (pos 1) ≡ user_tasks_key (pos 11)) ↔ (pos 1 ≡ pos 11))
    × (task_key (pos 1) ≢ user_tasks_key (pos 11))
    × (task_key (pos 1) ≢ user_rate_limiter_key (pos 11))
    × (user_tasks_key (pos 1) ≢ user_rate_limiter_key (pos 11))
keys_apart_test = keys_apart (pos 1) (pos 11)

-- ===== src/Limiter/Tests.antt =====
-- Runs of the rate limiter with the presets of rate_limiter_presets.go.
use async_task_orchestrator.Prelude.{◌+◌, ◌-◌, ◌*◌, ◌≤◌, ◌≡◌, min, refl, none, some, [], ◌∷◌, arith}
use async_task_orchestrator.Limiter.Config.{strict_rate_limiter, conservative_rate_limiter}
use async_task_orchestrator.Limiter.Script.{Bucket, full, run_script, ttl}
use async_task_orchestrator.Limiter.Store.{Entry, answers, answers_kept, eval_script, sum}
use async_task_orchestrator.Limiter.Bound.{allowed_bound}
use async_task_orchestrator.Limiter.Expiry.{answers-eq-kept, answers_bound}
use async_task_orchestrator.Limiter.Ticking.{ticking_answers, answers-ticking}
use async_task_orchestrator.Limiter.Burst.{burst, burst-capacity, waiting_allowed}

-- Three requests pass at once, and one more after ten seconds.
strict_run :
    answers strict_rate_limiter none (100 ∷ 100 ∷ 100 ∷ 100 ∷ 109 ∷ 110 ∷ 110 ∷ [])
    ≡ 1 ∷ 1 ∷ 1 ∷ 0 ∷ 0 ∷ 1 ∷ 0 ∷ []
unfolding strict_rate_limiter answers eval_script run_script ttl
strict_run = refl

strict_ttl : ttl strict_rate_limiter ≡ 30
unfolding strict_rate_limiter ttl
strict_ttl = refl

abbrev half_used : Bucket
half_used = record { tokens = 15; last_refill = 100 }

allowed_bound_test :
    sum (answers_kept strict_rate_limiter (some half_used) (105 ∷ 90 ∷ 110 ∷ [])) * 10
    ≤ 15 + (110 - 100) * 1
unfolding strict_rate_limiter
allowed_bound_test =
    allowed_bound strict_rate_limiter half_used (105 ∷ 90 ∷ 110 ∷ []) 110 (omega arith)
      (omega arith)

answers-eq-kept_test :
    answers strict_rate_limiter none (100 ∷ 100 ∷ 131 ∷ [])
    ≡ answers_kept strict_rate_limiter none (100 ∷ 100 ∷ 131 ∷ [])
unfolding strict_rate_limiter
answers-eq-kept_test =
    answers-eq-kept strict_rate_limiter (omega arith) (100 ∷ 100 ∷ 131 ∷ []) (omega arith)

answers_bound_example :
    sum (answers strict_rate_limiter none (100 ∷ 100 ∷ 131 ∷ [])) * 10 ≤ 3 * 10 + (131 - 100) * 1
unfolding strict_rate_limiter
answers_bound_example =
    answers_bound strict_rate_limiter (omega arith) 100 (100 ∷ 131 ∷ []) 131 (omega arith)
      (omega arith) (omega arith)

burst-capacity_example : sum (answers strict_rate_limiter none (burst 5 100)) ≡ min 5 3
unfolding strict_rate_limiter
burst-capacity_example = burst-capacity strict_rate_limiter (omega arith) 5 100 (omega arith)

abbrev spent : Entry
spent = record { bucket = record { tokens = 0; last_refill = 100 }; expires_at = 130 }

spent_waits : (x : Entry) → some spent ≡ some x → 10 ≤ (110 - x.bucket.last_refill) * 1
spent_waits x e = ground arith

waiting_allowed_test : (eval_script strict_rate_limiter 110 (some spent)).0 ≡ 1
unfolding strict_rate_limiter
waiting_allowed_test =
    waiting_allowed strict_rate_limiter (omega arith) 110 (some spent) (omega arith) spent_waits

answers-ticking_example :
    answers conservative_rate_limiter none (100 ∷ 100 ∷ 131 ∷ [])
    ≡ ticking_answers conservative_rate_limiter 100
        (full conservative_rate_limiter)
        (100 ∷ 100 ∷ 131 ∷ [])
unfolding conservative_rate_limiter
answers-ticking_example =
    answers-ticking conservative_rate_limiter 100 (100 ∷ 131 ∷ []) refl (omega arith) (omega arith)
      (omega arith)

-- ===== src/Retry.antt =====
-- Loops that make a call up to `n` times and sleep one second more after each failure, as
-- SetupRabbitMQ of internal/queue/rabbitmq.go and Init of internal/db/postgres.go do.
use mathlib.Core.Path.{subst}
use async_task_orchestrator.Prelude.{
  ℕ, zero, suc, ◌+◌, ◌≤◌, ◌<◌, String, ◌≡◌, ◌≢◌, ◌⊎◌, inl, inr, refl, sym, arith,
}
use async_task_orchestrator.Go.{
  Error, Outcome, Outcome-cases, ok, err, panic, M, pure, throw, handle, after,
}

-- The seconds that are slept after `k` failures: 1 + 2 + … + k.
unfoldable pub waits : ℕ → ℕ
waits zero = 0
waits (suc k) = waits k + suc k

waits_mono : (k n : ℕ) → k ≤ n → waits k ≤ waits n
unfolding waits
waits_mono zero n h = omega arith
waits_mono (suc k) zero h = absurd (omega arith)
waits_mono (suc k) (suc n) h = omega (arith, waits_mono k n (omega arith))

module _ {S A : Type 0} (attempt : M S A) (sleep : ℕ → S → S) where
  -- From `s`, `k` attempts have failed, each one with a sleep after it, and the state is now `t`.
  pub data Failing (s : S) : ℕ → S → Type 0 where
    none_yet : Failing s zero s
    once_more :
        {k : ℕ} {t : S} (e : Error)
        → Failing s k t
        → (attempt t).0 ≡ err e
        → Failing s (suc k) (sleep (suc k) (attempt t).1)

  -- How `n` attempts end: with the first one that does not fail, or with a panic.
  pub data Ends (n : ℕ) (message : String) (s : S) : Outcome A × S → Type 0 where
    answered :
        (k : ℕ) (t : S)
        → k < n
        → Failing s k t
        → ((e : Error) → (attempt t).0 ≢ err e)
        → Ends n message s (attempt t)
    gave_up : (t : S) → Failing s n t → Ends n message s (panic message, t)

  first_answer :
      (x : Outcome A × S) (again : Error → M S A)
      → ((e : Error) → x.0 ≢ err e)
      → after x.0 pure again x.1 ≡ x
  first_answer (ok a, s) again h = refl
  first_answer (err e, s) again h = absurd (h e refl)
  first_answer (panic p, s) again h = refl

  module _ (message : String) where
    -- The loop: `left` attempts are left, and `i` have been made.
    unfoldable pub retried : ℕ → ℕ → M S A
    retried zero i = throw message
    retried (suc left) i =
        let again = retried left (i + 1) in handle attempt pure (λ e s. again (sleep (i + 1) s))

    pub retried-Ends :
        (n left i : ℕ) (s t : S)
        → i + left ≡ n
        → Failing s i t
        → Ends n message s (retried left i t)
    unfolding retried
    retried-Ends n zero i s t e f = gave_up t (subst (λ k. Failing s k t) (omega arith) f)
    retried-Ends n (suc left) i s t e f = elim (Outcome-cases (attempt t).0) [
      | inl (x, done) ↦ stops (λ e' k. cc)
      | inr (inl (x, failed)) ↦
          let next : suc i ≡ i + 1 = omega arith in
          let more : Failing s (i + 1) (sleep (i + 1) (attempt t).1) =
            subst (λ k. Failing s k (sleep k (attempt t).1)) next (once_more x f failed) in
          rw failed (retried-Ends n left (i + 1) s _ (omega arith) more)
      | inr (inr (p, panicked)) ↦ stops (λ e' k. cc)
    ]
      where
        stops : ((x : Error) → (attempt t).0 ≢ err x) → Ends n message s (retried (suc left) i t)
        stops h =
            let again : Error → M S A = λ x u. retried left (i + 1) (sleep (i + 1) u) in
            subst (Ends n message s) (sym (first_answer (attempt t) again h))
              (answered i t (omega arith) f h)

  -- The seconds that were slept, if the attempts themselves do not sleep.
  module _ (slept : S → ℕ) (awake : (s : S) → slept (attempt s).1 ≡ slept s)
      (sleeps : (n : ℕ) (s : S) → slept (sleep n s) ≡ slept s + n) where
    Failing-waits : (s : S) (k : ℕ) (t : S) → Failing s k t → slept t ≡ slept s + waits k
    unfolding waits
    Failing-waits s zero t none_yet = omega arith
    Failing-waits s (suc k) t' (once_more {t = t} e f h) =
        omega (arith, sleeps (suc k) (attempt t).1, awake t, Failing-waits s k t f)

    -- The call ends after `waits (n - 1)` seconds of sleep at most, or it panics after `waits n`.
    pub Ends-waits :
        (n : ℕ) (message : String) (s : S) (x : Outcome A × S)
        → Ends (suc n) message s x
        → (slept x.1 ≤ slept s + waits n)
          ⊎ ((x.0 ≡ panic message) × (slept x.1 ≡ slept s + waits (suc n)))
    Ends-waits n message s x' (answered k t few f h) =
        inl (omega (arith, awake t, Failing-waits s k t f, waits_mono k n (omega arith)))
    Ends-waits n message s x' (gave_up t f) = inr (refl, Failing-waits s (suc n) t f)

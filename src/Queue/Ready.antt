-- ===== src/Queue/Ready.antt =====
-- How SetupRabbitMQ of internal/queue/rabbitmq.go ends.
use mathlib.Core.Path.{subst}
use async_task_orchestrator.Retry.{Ends, retried, retried-Ends, Ends-waits, none_yet, waits}
use async_task_orchestrator.Prelude.{◌⊎◌, ◌≤◌, ℕ, zero, suc, ◌+◌, String, ◌≡◌, refl, sym, inl, inr}
use async_task_orchestrator.Go.{Outcome-cases, ok, ok-injective, panic}
use async_task_orchestrator.Queue.Connect.{Amqp, connect, setup_rabbit_mq}

module _ {S : Type 0} (a : Amqp S) where
  -- The last call before was a Dial of the address, which gave the connection.
  pub record Dialed (url : String) (conn : a.Connection) (now : S) : Type 0 where
    pub before : S
    pub answered : (a.dial url before).0 ≡ ok conn
    pub after : now ≡ (a.dial url before).1

  connect-Dialed :
      (url : String) (left i : ℕ) (s : S) (conn : a.Connection)
      → (connect a url left i s).0 ≡ ok conn
      → Dialed url conn (connect a url left i s).1
  unfolding connect
  connect-Dialed url zero i s conn h = absurd cc
  connect-Dialed url (suc left) i s conn h = elim (Outcome-cases (a.dial url s).0) [
    | inl (d, dialed) ↦
        let e : d ≡ conn = ok-injective (rw dialed at h) in
        rw (sym e) (record { before = s; answered = dialed; after = rw dialed refl })
    | inr (inl (x, failed)) ↦
        rw failed
          (connect-Dialed url left (i + 1) (a.sleep (i + 1) (a.dial url s).1) conn (rw failed at h))
    | inr (inr (x, failed)) ↦ absurd (cc (rw failed at h))
  ]

  pub setup_rabbit_mq-Dialed :
      (url : String) (s : S) (conn : a.Connection)
      → (setup_rabbit_mq a url s).0 ≡ ok conn
      → Dialed url conn (setup_rabbit_mq a url s).1
  unfolding setup_rabbit_mq
  setup_rabbit_mq-Dialed url s conn h = connect-Dialed url 5 0 s conn h

  connect-retried :
      (url : String) (left i : ℕ) (s : S)
      → connect a url left i s
        ≡ retried (a.dial url) a.sleep "Failed to connect to RabbitMQ" left i s
  unfolding connect retried
  connect-retried url zero i s = refl
  connect-retried url (suc left) i s = elim (Outcome-cases (a.dial url s).0) [
    | inl (d, dialed) ↦ rw dialed refl
    | inr (inl (x, failed)) ↦
        rw failed (connect-retried url left (i + 1) (a.sleep (i + 1) (a.dial url s).1))
    | inr (inr (x, failed)) ↦ rw failed refl
  ]

  -- SetupRabbitMQ always ends: with what Dial answered in the first of five attempts that gave no
  -- error, or, after five errors, with a panic. After the error of attempt `k` it sleeps `k`
  -- seconds before it goes on.
  pub setup_rabbit_mq-Ends :
      (url : String) (s : S)
      → Ends (a.dial url) a.sleep 5 "Failed to connect to RabbitMQ" s (setup_rabbit_mq a url s)
  unfolding setup_rabbit_mq
  setup_rabbit_mq-Ends url s =
      subst (Ends (a.dial url) a.sleep 5 "Failed to connect to RabbitMQ" s)
        (sym (connect-retried url 5 0 s))
        (retried-Ends (a.dial url) a.sleep "Failed to connect to RabbitMQ" 5 5 0 s s refl none_yet)

  -- If Dial itself takes none of the sleep, SetupRabbitMQ sleeps 10 seconds at most, or it panics
  -- after 15 seconds of sleep.
  pub setup_rabbit_mq-waits :
      (slept : S → ℕ) (url : String) (s : S)
      → ((t : S) → slept (a.dial url t).1 ≡ slept t)
      → ((n : ℕ) (t : S) → slept (a.sleep n t) ≡ slept t + n)
      → let (result, now) = setup_rabbit_mq a url s in
        (slept now ≤ slept s + 10)
        ⊎ ((result ≡ panic "Failed to connect to RabbitMQ") × (slept now ≡ slept s + 15))
  setup_rabbit_mq-waits slept url s awake sleeps =
      unfold waits in
      Ends-waits (a.dial url) a.sleep slept awake sleeps 4 "Failed to connect to RabbitMQ" s
        (setup_rabbit_mq a url s) (setup_rabbit_mq-Ends url s)

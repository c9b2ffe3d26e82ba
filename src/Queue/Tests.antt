-- ===== src/Queue/Tests.antt =====
-- A broker that answers the third Dial.
use async_task_orchestrator.Prelude.{ℕ, ◌+◌, ◌≤◌, ◌⊎◌, ltb, ◌≡◌, refl, if◌then◌else◌}
use async_task_orchestrator.Go.{ok, err, panic, new}
use async_task_orchestrator.Retry.{Ends}
use async_task_orchestrator.Queue.Connect.{Amqp, connect, setup_rabbit_mq}
use async_task_orchestrator.Queue.Ready.{setup_rabbit_mq-Ends, setup_rabbit_mq-waits}

-- The number of the Dials and the seconds that were waited.
abbrev third : Amqp (ℕ × ℕ)
third = record {
  Connection = Unit;
  Ch = Unit;
  dial = λ url (n, w). (if ltb n 2 then err (new "refused") else ok tt, (n + 1, w));
  channel = λ conn s. (ok tt, s);
  queue_declare = λ ch name durable deleted exclusive no_wait s. (ok tt, s);
  publish = λ ch p s. (ok tt, s);
  close = λ ch s. (ok tt, s);
  sleep = λ k (n, w). (n, w + k);
}

connected : setup_rabbit_mq third "amqp://queue" (0, 0) ≡ (ok tt, (3, 3))
unfolding setup_rabbit_mq connect
connected = refl

setup_rabbit_mq-Ends_example :
    Ends
      (third.dial "amqp://queue")
      third.sleep
      5
      "Failed to connect to RabbitMQ"
      (0, 0)
      (setup_rabbit_mq third "amqp://queue" (0, 0))
setup_rabbit_mq-Ends_example = setup_rabbit_mq-Ends third "amqp://queue" (0, 0)

abbrev slept : ℕ × ℕ → ℕ
slept (n, w) = w

setup_rabbit_mq-waits_test :
    let (result, now) = setup_rabbit_mq third "amqp://queue" (0, 0) in
    (slept now ≤ 10) ⊎ ((result ≡ panic "Failed to connect to RabbitMQ") × (slept now ≡ 15))
setup_rabbit_mq-waits_test =
    setup_rabbit_mq-waits third slept "amqp://queue" (0, 0) (λ t. refl) (λ n t. refl)

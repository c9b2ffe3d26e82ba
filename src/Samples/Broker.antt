-- ===== src/Samples/Broker.antt =====
-- A channel in memory: it answers with success, or always with an error.
use async_task_orchestrator.Prelude.{Bool, if◌then◌else◌, arith}
use async_task_orchestrator.Go.{new, Outcome, ok, err}
use async_task_orchestrator.Queue.Channel.{Channel}
use async_task_orchestrator.Worker.Settle.{CalmChannel}

abbrev answer : Bool → Outcome (Unit {0}) × Bool
answer up = (if up then ok tt else err (new "channel closed"), up)

abbrev pub broker : Channel
broker = record {
  Chan = Bool;
  ack = λ tag up. answer up;
  nack = λ tag requeue up. answer up;
  publish = λ p up. answer up;
}

pub broker-CalmChannel : CalmChannel broker
broker-CalmChannel = record {
  ack = λ tag up p h. ground arith;
  nack = λ tag requeue up p h. ground arith;
  publish = λ x up p h. ground arith;
}

-- ===== src/Worker/Start/Tests.antt =====
-- A worker that is given two deliveries, the second one with a body that is no payload.
use async_task_orchestrator.Prelude.{◌≡◌, ℕ, pos, true, Option, none, some, List, [], ◌∷◌, Text}
use async_task_orchestrator.Go.{ok}
use async_task_orchestrator.Utils.Calm.{Calm}
use async_task_orchestrator.Queue.Message.{Delivery, Publishing}
use async_task_orchestrator.Task.Model.{TaskPayload}
use async_task_orchestrator.Worker.Loop.{World, run_worker}
use async_task_orchestrator.Worker.Settle.{CalmChannel}
use async_task_orchestrator.Worker.Start.{Consumer, channel_on, Process, start_worker}
use async_task_orchestrator.Worker.Start.Settles.{
  SettledAll, run_worker_settles, WorkerEnds, start_worker_settles,
}
use async_task_orchestrator.Samples.Memory.{memory, memory-CalmDatabase, holding, task_row}
use async_task_orchestrator.Samples.Broker.{broker, broker-CalmChannel}
use async_task_orchestrator.Samples.Services.{rabbit}

-- The body `[1]` is that of a payload.
abbrev read_one : Text → Option TaskPayload
read_one [] = none
read_one (c ∷ s) = some (record { id = pos 7; user_id = pos 1; task_type = "send_email" })

abbrev message : ℕ → Text → Delivery
message tag body = record {
  tag = tag;
  routing_key = "task_queue";
  content_type = "application/json";
  body = body;
  headers = none;
}

abbrev two : List Delivery
two = message 1 (1 ∷ []) ∷ message 2 [] ∷ []

abbrev world : World memory broker
world = record {
  db = holding (task_row (pos 7) (pos 1) "send_email" "PENDING" ∷ []) [] [];
  chan = true;
  calls = [];
}

run_worker_settles_test :
    ((run_worker memory broker read_one 1 two world).0 ≡ ok tt)
    × SettledAll two [] (run_worker memory broker read_one 1 two world).1.calls
run_worker_settles_test =
    run_worker_settles memory memory-CalmDatabase broker broker-CalmChannel read_one 1 two world

abbrev consumer : Consumer (List Publishing) rabbit
consumer = record {
  qos = λ ch count size global s. (ok tt, s);
  consume = λ ch queue name auto_ack exclusive no_local no_wait s. (ok two, s);
  ack = λ ch tag s. (ok tt, s);
  nack = λ ch tag requeue s. (ok tt, s);
}

consumer-CalmChannel : (ch : Unit {0}) → CalmChannel (channel_on rabbit consumer ch)
consumer-CalmChannel ch = record {
  ack = λ tag s p h. cc;
  nack = λ tag requeue s p h. cc;
  publish = λ x s p h. cc;
}

close-Calm : (ch : Unit {0}) → Calm (rabbit.close ch)
close-Calm ch s p h = cc

abbrev process : Process memory rabbit consumer
process = record { db = world.db; amqp = []; calls = [] }

start_worker_settles_example :
    WorkerEnds memory memory-CalmDatabase rabbit consumer tt process
      (start_worker memory rabbit consumer read_one tt 1 process)
start_worker_settles_example =
    start_worker_settles memory memory-CalmDatabase rabbit consumer read_one consumer-CalmChannel
      close-Calm tt 1 process

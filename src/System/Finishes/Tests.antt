-- ===== src/System/Finishes/Tests.antt =====
-- A request for a task, its message with a worker, and the acknowledgement.
use async_task_orchestrator.Json.Payload.{unmarshal_payload}
use async_task_orchestrator.Prelude.{pos, arith, ◌∙◌, ◌≡◌, refl, true, some, [], ◌∷◌, false}
use async_task_orchestrator.Task.Service.{task_message, App}
use async_task_orchestrator.Samples.Memory.{memory-CalmDatabase, memory, memory-Laws}
use async_task_orchestrator.Samples.Broker.{broker, broker-CalmChannel}
use async_task_orchestrator.Samples.Redis.{store, store-RedisLaws}
use async_task_orchestrator.Samples.Services.{rabbit, codec-JsonLaws}
use async_task_orchestrator.Worker.Messages.{payload_of, decoded}
use async_task_orchestrator.Samples.Program.{
  ctx, printable, libraries, secret, moment, created, numbered, message, worked, begun-Empty,
  its_row, no_row, carried, committing,
}
use mathlib.Core.List.{Memᴰ}
use async_task_orchestrator.Worker.Pool.{
  Pool, empty, is_worker, worker_ids, settle, conclude, tried, copies_of, put, verdict,
}
use async_task_orchestrator.Worker.Loop.{acked, World, handle_delivery}
use async_task_orchestrator.Worker.Progress.{handle_delivery-acked}
use async_task_orchestrator.Queue.Message.{Publishing}
use async_task_orchestrator.System.Whole.{Whole, begins, sends, delivers, handles}
use async_task_orchestrator.System.Progress.{Whole-finishes}
use async_task_orchestrator.System.Done.{Row, result_status}
use async_task_orchestrator.Worker.Proc.{handle_task}
use async_task_orchestrator.System.Finishes.{DoneBefore, Whole-DoneBefore}

abbrev sent_message : Publishing
sent_message = task_message memory store rabbit printable numbered

abbrev waiting : Pool
waiting = record empty { ready = sent_message ∷ []; accepted = sent_message ∷ [] }

abbrev busy : Pool
busy = record waiting { ready = []; taken = (1, message) ∷ [] }

abbrev done : Pool
done = record busy { taken = []; finished = message ∷ [] }

abbrev Running : App memory store rabbit → Pool → Type 0
Running = Whole memory store rabbit libraries secret tt broker memory-Laws store-RedisLaws

Running-waiting : Running created waiting
Running-waiting =
    sends moment ctx numbered (begins begun-Empty) (omega arith) (omega arith)
      (100, no_row, its_row)

one_works : is_worker 1 worker_ids ≡ true
unfolding is_worker worker_ids
one_works = refl

Running-busy : Running created busy
Running-busy = delivers [] [] sent_message 1 1 Running-waiting refl one_works refl

abbrev world : World memory broker
world = record { db = created.db; chan = true; calls = [] }

read : unmarshal_payload message.body ≡ some (payload_of numbered)
read =
    decoded memory store rabbit printable numbered (omega arith) (omega arith) ∙ (rw carried refl)

ran : (handle_delivery memory broker unmarshal_payload 1 message world).1.calls ≡ acked 1 ∷ []
ran =
    (handle_delivery-acked memory broker broker-CalmChannel unmarshal_payload 1 message
      (payload_of numbered) world read committing).1

Running-done : Running worked done
unfolding settle conclude tried copies_of put verdict
Running-done = handles [] [] 1 message true (acked 1 ∷ []) false true Running-busy refl ran

Whole-DoneBefore_example :
    DoneBefore memory store rabbit libraries secret tt broker memory-Laws store-RedisLaws
      Running-done message
Whole-DoneBefore_example =
    Whole-DoneBefore memory store rabbit libraries secret tt broker memory-Laws store-RedisLaws
      codec-JsonLaws memory-CalmDatabase broker-CalmChannel worked done message Running-done
      (Memᴰ.head refl)

Whole-finishes_example :
    Running worked (record waiting { ready = []; finished = message ∷ [] })
    × Row
        (memory-Laws.committed worked.db)
        (pos 101)
        (pos 1)
        "send_email"
        (result_status (handle_task (payload_of numbered) 1))
Whole-finishes_example =
    Whole-finishes memory store rabbit libraries secret tt broker memory-Laws store-RedisLaws
      codec-JsonLaws memory-CalmDatabase broker-CalmChannel created waiting [] [] sent_message 1 1
      (payload_of numbered) true Running-waiting refl one_works refl read committing

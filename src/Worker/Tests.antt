-- ===== src/Worker/Tests.antt =====
-- A worker with a database and a channel in memory.
use async_task_orchestrator.Prelude.{
  ◌≤◌, ◌-◌, ◌≡◌, refl, inl, pos, true, false, Option, none, some, List, [], ◌∷◌, Text, Bool,
}
use async_task_orchestrator.Utils.Tx.{with_transaction, in_transaction}
use async_task_orchestrator.Queue.Message.{Delivery}
use async_task_orchestrator.Task.Model.{TaskPayload}
use async_task_orchestrator.Task.Repository.{mark_processing, mark_success, mark_failed}
use async_task_orchestrator.Worker.Proc.{handle_task}
use async_task_orchestrator.Worker.Loop.{
  acked, published, World, ack, nack, republish_with_retry, republishing, retry_count,
  record_result, retry, work, deliver, handle_delivery, run_worker,
}
use async_task_orchestrator.Worker.Settle.{Settled, handle_delivery_settles}
use async_task_orchestrator.Worker.Done.{Finished, acknowledged-Finished}
use async_task_orchestrator.Worker.Touched.{Touched}
use async_task_orchestrator.Worker.Touched.Rounds.{handle_delivery-Touched}
use async_task_orchestrator.Worker.Touched.Statuses.{Kept, run_worker-Kept}
use async_task_orchestrator.Worker.Retry.{Copies, last, copy, Copies-le}
use async_task_orchestrator.Samples.Memory.{
  memory, memory-Laws, memory_committed, memory-CalmDatabase, holding, task_row,
}
use async_task_orchestrator.Samples.Broker.{broker, broker-CalmChannel}

abbrev report : TaskPayload
report = record { id = pos 7; user_id = pos 1; task_type = "generate_report" }

-- Any body is read as the payload above.
abbrev always : Text → Option TaskPayload
always body = some report

abbrev message : Delivery
message = record {
  tag = 5;
  routing_key = "task_queue";
  content_type = "application/json";
  body = [];
  headers = none;
}

abbrev start : List Bool → World memory broker
start commits = record {
  db = holding (task_row (pos 7) (pos 1) "generate_report" "PENDING" ∷ []) [] commits;
  chan = true;
  calls = [];
}

run_ok : (handle_delivery memory broker always 1 message (start [])).1.calls ≡ acked 5 ∷ []
unfolding handle_delivery deliver work retry record_result ack nack republish_with_retry
    with_transaction in_transaction mark_processing mark_success mark_failed handle_task retry_count
run_ok = refl

handle_delivery_settles_test :
    Settled message []
      (handle_delivery memory broker always 1 message (start (true ∷ false ∷ []))).1.calls
handle_delivery_settles_test =
    (handle_delivery_settles memory broker memory-CalmDatabase broker-CalmChannel always 1 message
      (start (true ∷ false ∷ []))).1

acknowledged-Finished_example :
    (payload : TaskPayload) × (some report ≡ some payload)
    × Finished payload.id
        (handle_task payload 1)
        (memory-Laws.committed (start []).db).tasks
        (memory-Laws.committed
          (handle_delivery memory broker always 1 message (start [])).1.db).tasks
acknowledged-Finished_example =
    acknowledged-Finished memory broker memory-Laws memory-CalmDatabase broker-CalmChannel always 1
      message (start []) run_ok

abbrev copied : Delivery
copied = record message { headers = (republishing message (pos 1)).headers }

run_retry :
    (handle_delivery memory broker always 1 message (start (true ∷ false ∷ []))).1.calls
    ≡ published (republishing message (pos 1)) true ∷ acked 5 ∷ []
unfolding handle_delivery deliver work retry record_result ack nack republish_with_retry
    with_transaction in_transaction mark_processing mark_success mark_failed handle_task retry_count
run_retry = refl

message_count : retry_count message.headers ≡ pos 0
unfolding retry_count
message_count = refl

copied_once : Copies memory broker memory-CalmDatabase broker-CalmChannel always 1 message
copied_once =
    copy {msg' = copied} message 1 (start (true ∷ false ∷ [])) (republishing message (pos 1)) true
      (acked 5 ∷ []) run_retry refl (last copied)

Copies-le_example : 1 ≤ 3 - 0
Copies-le_example =
    Copies-le memory broker memory-CalmDatabase broker-CalmChannel always 1 0 message copied_once
      message_count

handle_delivery-Touched_example :
    Touched (pos 7) (memory-Laws.committed (start (true ∷ false ∷ [])).db) (
      memory-Laws.committed
        (handle_delivery memory broker always 1 message (start (true ∷ false ∷ []))).1.db)
handle_delivery-Touched_example =
    handle_delivery-Touched memory memory-Laws broker always 1 message report
      (start (true ∷ false ∷ [])) refl

one_pending : Kept memory memory-Laws broker always 1 (start (true ∷ false ∷ []))
one_pending = rw (memory_committed (start (true ∷ false ∷ [])).db) ((inl refl, tt), refl)

run_worker-Kept_test :
    Kept memory memory-Laws broker always 1
      (run_worker memory broker always 1 (message ∷ copied ∷ []) (start (true ∷ false ∷ []))).1
run_worker-Kept_test =
    run_worker-Kept memory memory-Laws broker always 1 1 (message ∷ copied ∷ [])
      (start (true ∷ false ∷ [])) one_pending

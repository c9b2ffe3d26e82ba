-- ===== src/Worker/Pool/Tests.antt =====
-- A message from the API in the hands of one worker, and the pool around it.
use mathlib.Core.List.{Memᴰ}
use async_task_orchestrator.Prelude.{
  ◌≤◌, ◌≡◌, refl, pos, ℕ, true, false, Bool, none, some, [], ◌∷◌, codes, arith, ◌∙◌,
}
use async_task_orchestrator.Go.{ok}
use async_task_orchestrator.Sql.Tables.{Task}
use async_task_orchestrator.Utils.Tx.{with_transaction, in_transaction}
use async_task_orchestrator.Queue.Message.{Publishing}
use async_task_orchestrator.Task.Service.{task_message}
use async_task_orchestrator.Task.Repository.{mark_processing, mark_success, mark_failed}
use async_task_orchestrator.Json.Payload.{unmarshal_payload}
use async_task_orchestrator.Json.RoundTrip.{unmarshal_payload-task_body}
use async_task_orchestrator.Json.Quotes.{all_carried}
use async_task_orchestrator.Worker.Proc.{handle_task}
use async_task_orchestrator.Worker.Loop.{
  acked, nacked, World, ack, nack, record_result, retry, work, deliver, handle_delivery,
  republish_with_retry, retry_count,
}
use async_task_orchestrator.Worker.Done.{Finished}
use async_task_orchestrator.Worker.Messages.{payload_of, message-Finished, message_dropped}
use async_task_orchestrator.Samples.Memory.{
  memory, memory-Laws, memory-CalmDatabase, holding, task_row,
}
use async_task_orchestrator.Samples.Broker.{broker, broker-CalmChannel}
use async_task_orchestrator.Samples.Redis.{store}
use async_task_orchestrator.Samples.Services.{rabbit, sample}
use async_task_orchestrator.Worker.Pool.{
  accepts, Pool, start, delivers, Reach, later, empty, delivered, settle, conclude, tried,
  copies_of, put, verdict, worker_ids, is_worker, handles,
}
use async_task_orchestrator.Worker.Pool.Spec.{Spec}
use async_task_orchestrator.Worker.Pool.Conserved.{sent, present, Reach-present}
use async_task_orchestrator.Worker.Pool.Origins.{Origins, Reach-Origins}
use async_task_orchestrator.Worker.Progress.{Commits}
use async_task_orchestrator.Worker.Pool.Progress.{Reach-finished}
use async_task_orchestrator.Worker.Pool.Results.{SentFor, TaskFinished, Reach-TaskFinished}

-- No character beyond ASCII is printable.
abbrev ascii : ℕ → Bool
ascii c = false

abbrev message_of : Task → Publishing
message_of t = task_message memory store rabbit ascii t

abbrev smile : Task
smile = task_row (pos 8) (pos 1) "😀" "PENDING"

abbrev world : World memory broker
world = record { db = holding (sample ∷ smile ∷ []) [] []; chan = true; calls = [] }

sample_carried : all_carried ascii (codes sample.task_type) ≡ true
unfolding all_carried
sample_carried = refl

smile_lost : all_carried ascii (codes smile.task_type) ≡ false
unfolding all_carried
smile_lost = refl

read_sample : unmarshal_payload (message_of sample).body ≡ some (payload_of sample)
unfolding task_message
read_sample =
    unmarshal_payload-task_body ascii (pos 7) (pos 1) "send_email" (omega arith) (omega arith)
    ∙ (rw sample_carried refl)

run_sample :
    (handle_delivery memory broker unmarshal_payload 1
      (delivered 5 (message_of sample))
      world).1.calls
    ≡ acked 5 ∷ []
unfolding handle_delivery deliver work retry record_result ack nack republish_with_retry
    with_transaction in_transaction mark_processing mark_success mark_failed handle_task retry_count
    task_message
run_sample = rw read_sample refl

message-Finished_test :
    Finished
      (pos 7)
      (handle_task (payload_of sample) 1)
      (memory-Laws.committed world.db).tasks
      (memory-Laws.committed
        (handle_delivery memory broker unmarshal_payload 1
          (delivered 5 (message_of sample))
          world).1.db).tasks
message-Finished_test =
    message-Finished memory store rabbit ascii broker memory-CalmDatabase broker-CalmChannel
      memory-Laws sample 1 (delivered 5 (message_of sample)) world (omega arith) (omega arith)
      sample_carried refl run_sample

message_dropped_example :
    let (result, w') =
      handle_delivery memory broker unmarshal_payload 1 (delivered 6 (message_of smile)) world in
    (result ≡ ok tt) × (w'.calls ≡ nacked 6 false ∷ []) × (w'.db ≡ world.db)
message_dropped_example =
    message_dropped memory store rabbit ascii broker broker-CalmChannel smile 1
      (delivered 6 (message_of smile)) world (omega arith) (omega arith) smile_lost refl

-- The API sends the message, the second worker takes it, and acknowledges it.
abbrev waiting : Pool
waiting = record empty { ready = message_of sample ∷ []; accepted = message_of sample ∷ [] }

abbrev busy : Pool
busy = record waiting { ready = []; taken = (2, delivered 5 (message_of sample)) ∷ [] }

abbrev done : Pool
done = record busy { taken = []; finished = delivered 5 (message_of sample) ∷ [] }

two_works : is_worker 2 worker_ids ≡ true
unfolding is_worker worker_ids
two_works = refl

no_headers : (message_of sample).headers ≡ none
unfolding task_message
no_headers = refl

reach_busy : Reach memory broker unmarshal_payload busy
reach_busy =
    later (later start (accepts (message_of sample) no_headers))
      (delivers [] [] (message_of sample) 2 5 refl two_works refl)

run_second :
    (handle_delivery memory broker unmarshal_payload 2
      (delivered 5 (message_of sample))
      world).1.calls
    ≡ acked 5 ∷ []
unfolding handle_delivery deliver work retry record_result ack nack republish_with_retry
    with_transaction in_transaction mark_processing mark_success mark_failed handle_task retry_count
    task_message
run_second = rw read_sample refl

reach_done : Reach memory broker unmarshal_payload done
unfolding settle conclude tried copies_of put verdict
reach_done = later reach_busy (
    handles [] [] 2 (delivered 5 (message_of sample)) world (acked 5 ∷ []) false true refl
      run_second)

Reach-present_test : sent (message_of sample).body done ≤ present (message_of sample).body done
Reach-present_test =
    Reach-present memory broker memory-CalmDatabase broker-CalmChannel unmarshal_payload
      (message_of sample).body done reach_done

Reach-Origins_example : Origins done
Reach-Origins_example =
    Reach-Origins memory broker memory-CalmDatabase broker-CalmChannel unmarshal_payload done
      reach_done

SentFor-sample :
    SentFor memory broker memory-CalmDatabase broker-CalmChannel store rabbit ascii memory-Laws
      (message_of sample)
SentFor-sample = record {
  task = sample;
  is_id = omega arith;
  is_user_id = omega arith;
  readable = sample_carried;
  same_body = refl;
}

Reach-TaskFinished_example :
    TaskFinished memory broker memory-CalmDatabase broker-CalmChannel store rabbit ascii memory-Laws
      reach_done
      (delivered 5 (message_of sample))
Reach-TaskFinished_example =
    Reach-TaskFinished memory broker memory-CalmDatabase broker-CalmChannel store rabbit ascii
      memory-Laws done (delivered 5 (message_of sample)) reach_done (SentFor-sample, tt)
      (Memᴰ.head refl)

Commits-sample : Commits memory broker 2 (payload_of sample) world.db
unfolding with_transaction in_transaction mark_processing mark_success mark_failed record_result
    handle_task
Commits-sample = record { first = refl; second = refl }

reach_waiting : Reach memory broker unmarshal_payload waiting
reach_waiting = later start (accepts (message_of sample) no_headers)

Reach-finished_test :
    Reach memory broker unmarshal_payload
      (record waiting { ready = []; finished = delivered 5 (message_of sample) ∷ [] })
Reach-finished_test =
    Reach-finished memory broker broker-CalmChannel unmarshal_payload waiting [] []
      (message_of sample) 2 5 (payload_of sample) world reach_waiting refl two_works refl
      read_sample Commits-sample

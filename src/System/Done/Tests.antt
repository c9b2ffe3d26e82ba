-- ===== src/System/Done/Tests.antt =====
-- The answer 201 and the round of a worker for the task.
use async_task_orchestrator.Prelude.{arith, ◌≡◌, refl, pos, true, []}
use async_task_orchestrator.Go.{ok}
use async_task_orchestrator.Task.Controller.{created_response, new_task}
use async_task_orchestrator.Task.Access.{Accepted}
use async_task_orchestrator.Task.Creates.{Created}
use async_task_orchestrator.Samples.Memory.{memory-CalmDatabase, memory, memory-Laws}
use async_task_orchestrator.Samples.Broker.{broker, broker-CalmChannel}
use async_task_orchestrator.Samples.Redis.{store, store-RedisLaws}
use async_task_orchestrator.Samples.Services.{rabbit, codec-JsonLaws}
use async_task_orchestrator.Http.{get_key}
use async_task_orchestrator.Auth.Context.{get_user_id_from_context, as_user_id}
use async_task_orchestrator.Worker.Messages.{payload_of}
use async_task_orchestrator.Worker.Proc.{handle_task}
use async_task_orchestrator.System.Done.{Row, result_status, accepted-Row}
use async_task_orchestrator.System.History.{at_once}
use async_task_orchestrator.Samples.Program.{
  ctx, printable, libraries, secret, begun, created, numbered, message, worked, created-History,
  its_row, no_row, carried, committing, same_body,
}

its_user : get_user_id_from_context ctx ≡ ok (pos 1)
unfolding get_user_id_from_context as_user_id get_key
its_user = refl

new_row :
    Created memory store rabbit memory-Laws tt printable
      (new_task (pos 1) "send_email")
      begun
      numbered
      created
new_row = record {
  key = pos 101;
  time = 100;
  identified = refl;
  fresh = no_row;
  stored = its_row;
  channel = tt;
  at_publish = [];
  published = refl;
}

abbrev acceptance :
    Accepted memory store rabbit memory-Laws tt printable libraries.bind_task_type ctx begun
      (created_response numbered)
      created
acceptance = record {
  user_id = pos 1;
  task_type = "send_email";
  task = numbered;
  requested = refl;
  user = its_user;
  created = new_row;
  answer = refl;
}

accepted-Row_example :
    Row
      (memory-Laws.committed worked.db)
      (pos 101)
      (pos 1)
      "send_email"
      (result_status (handle_task (payload_of numbered) 1))
accepted-Row_example =
    accepted-Row memory store rabbit libraries secret tt broker memory-Laws store-RedisLaws
      codec-JsonLaws memory-CalmDatabase broker-CalmChannel ctx begun (created_response numbered)
      created acceptance created 1 message true created-History at_once (omega arith) (omega arith)
      carried same_body committing

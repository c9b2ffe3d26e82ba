-- ===== src/Samples/Program.antt =====
-- The whole program in memory: from empty tables, a request for a task, and the round of a worker
-- for its message.
use async_task_orchestrator.Json.Payload.{unmarshal_payload}
use async_task_orchestrator.Prelude.{
  ap, ◌∙◌, ◌≡◌, refl, sym, pos, true, none, [], ◌∷◌, codes, ℕ, Bool, Text,
}
use async_task_orchestrator.Go.{ok}
use async_task_orchestrator.Sql.Tables.{Task, insert_task, find_task, inserted}
use async_task_orchestrator.Task.Service.{
  task_message, App, publish_task, load_task, cached_task, load_tasks, cached_tasks,
}
use async_task_orchestrator.Task.Controller.{
  new_task, create_for, create_bound, create_task_handler,
}
use async_task_orchestrator.Task.Repository.{mark_processing, mark_success, mark_failed, create}
use async_task_orchestrator.Worker.Loop.{record_result}
use async_task_orchestrator.Samples.Memory.{memory, memory-Laws, memory_committed, holding}
use async_task_orchestrator.Samples.Broker.{broker}
use async_task_orchestrator.Samples.Redis.{store, store-RedisLaws}
use async_task_orchestrator.Samples.Services.{rabbit, codec}
use async_task_orchestrator.Utils.Tx.{with_transaction, in_transaction}
use async_task_orchestrator.Http.{get_key, Context, int}
use async_task_orchestrator.Fmt.{atoi, in_range, read_nat, read_digits, is_digit}
use async_task_orchestrator.Auth.Context.{get_user_id_from_context, as_user_id}
use async_task_orchestrator.Queue.Connect.{create_channel}
use async_task_orchestrator.Json.Quotes.{all_carried}
use async_task_orchestrator.Worker.Messages.{payload_of}
use async_task_orchestrator.Worker.Progress.{Commits}
use async_task_orchestrator.Worker.Proc.{handle_task}
use async_task_orchestrator.System.History.{
  History, Empty, Later, at_once, next, request, round, served, after_round, create_task,
}
use async_task_orchestrator.Worker.Pool.{delivered}
use async_task_orchestrator.Handler.{Moment}
use async_task_orchestrator.Handler.Setup.{Libraries}
use async_task_orchestrator.Queue.Message.{Delivery}
use async_task_orchestrator.Samples.Signer.{plain, clear}

abbrev pub ctx : Context
ctx = record {
  authorization = [];
  id_param = codes "101";
  body = [];
  keys = ("userID", int (pos 1)) ∷ [];
}

abbrev pub printable : ℕ → Bool
printable c = true

abbrev pub libraries : Libraries
libraries = record {
  bind_credentials = λ body. ok ("alice", "password");
  bind_token = λ body. ok body;
  bind_task_type = λ body. ok "send_email";
  bcrypt = plain;
  jwt = clear;
  json = codec;
  is_print = printable;
}

abbrev pub secret : Text
secret = codes "secret"

abbrev pub begun : App memory store rabbit
begun = record { db = holding [] [] []; redis = λ key. none; broker = [] }

abbrev pub moment : Moment
moment = record { unix = 0; checked_at = 0; first_made_at = 0; second_made_at = 0; salt = 0 }

abbrev pub created : App memory store rabbit
created =
    (served memory store rabbit libraries secret tt broker unmarshal_payload create_task moment ctx
      begun).1

abbrev pub numbered : Task
numbered = record (new_task (pos 1) "send_email") { id = pos 101 }

abbrev pub message : Delivery
message = delivered 1 (task_message memory store rabbit printable numbered)

abbrev pub worked : App memory store rabbit
worked =
    after_round memory store rabbit libraries secret tt broker unmarshal_payload 1 message true
      created

abbrev pub Past : App memory store rabbit → Type 0
Past =
    History memory store rabbit libraries secret tt broker unmarshal_payload memory-Laws
      store-RedisLaws

no_entry : (key : Text) → store-RedisLaws.value key begun.redis ≡ none
no_entry key = sym (store-RedisLaws.get_value key begun.redis none refl)

pub begun-Empty :
    Empty memory store rabbit libraries secret tt broker unmarshal_payload memory-Laws
      store-RedisLaws begun
begun-Empty = record {
  no_row = memory_committed begun.db;
  no_task = λ id. no_entry _;
  no_list = λ id. no_entry _;
}

pub created_later :
    Later memory store rabbit libraries secret tt broker unmarshal_payload memory-Laws
      store-RedisLaws begun created
created_later = next at_once (request create_task moment ctx)

pub worked_later :
    Later memory store rabbit libraries secret tt broker unmarshal_payload memory-Laws
      store-RedisLaws created worked
worked_later = next at_once (round 1 message true)

pub created-History : Past created
created-History = record { start = begun; empty = begun-Empty; since = created_later }

pub worked-History : Past worked
worked-History = record {
  start = begun;
  empty = begun-Empty;
  since = next created_later (round 1 message true);
}

pub its_row :
    memory-Laws.committed created.db
    ≡ inserted 100
        (pos 101)
        (insert_task (pos 1) "send_email" "PENDING")
        (memory-Laws.committed begun.db)
unfolding served create_task_handler create_bound create_for
    async_task_orchestrator.Task.Service.create_task publish_task create create_channel
    with_transaction in_transaction find_task inserted get_user_id_from_context as_user_id get_key
    atoi in_range read_nat read_digits is_digit
its_row =
    memory_committed created.db
    ∙ ap (inserted 100 (pos 101) (insert_task (pos 1) "send_email" "PENDING"))
        (sym (memory_committed begun.db))

pub no_row : find_task (pos 101) (memory-Laws.committed begun.db).tasks ≡ none
unfolding find_task
no_row = ap (λ d. find_task (pos 101) d.tasks) (memory_committed begun.db)

pub carried : all_carried printable (codes "send_email") ≡ true
unfolding all_carried
carried = refl

pub committing : Commits memory broker 1 (payload_of numbered) created.db
unfolding served create_task_handler create_bound create_for
    async_task_orchestrator.Task.Service.create_task publish_task create create_channel
    with_transaction in_transaction find_task inserted get_user_id_from_context as_user_id get_key
    atoi in_range read_nat read_digits is_digit mark_processing mark_success mark_failed
    record_result handle_task
committing = record { first = refl; second = refl }

pub same_body : message.body ≡ (task_message memory store rabbit printable numbered).body
same_body = refl

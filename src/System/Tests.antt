-- ===== src/System/Tests.antt =====
-- What the theorems on the whole program say of a request for a task, the round of a worker for it,
-- and requests after it.
use async_task_orchestrator.Json.Payload.{unmarshal_payload}
use async_task_orchestrator.Prelude.{ap, ◌∙◌, ◌≡◌, refl, pos, some, [], ◌∷◌, ◌*◌}
use async_task_orchestrator.Go.{ok}
use async_task_orchestrator.Sql.Tables.{
  Task, find_task, tasks_of, inserted, find_user, find_username,
}
use async_task_orchestrator.Task.Service.{
  task_message, App, publish_task, load_task, cached_task, load_tasks, cached_tasks,
}
use async_task_orchestrator.Task.Controller.{
  task_response, tasks_response, create_for, create_bound, create_task_handler, show_task,
  get_task_by, get_task_handler, list_tasks, get_tasks_by_user,
}
use async_task_orchestrator.Task.Access.{Shown}
use async_task_orchestrator.Task.Listing.{Listed}
use async_task_orchestrator.Samples.Memory.{memory, memory-Laws, memory_committed, task_row}
use async_task_orchestrator.Samples.Broker.{broker}
use async_task_orchestrator.Samples.Redis.{store, store-RedisLaws}
use async_task_orchestrator.Samples.Services.{rabbit, codec, codec-JsonLaws}
use async_task_orchestrator.Utils.Tx.{with_transaction, in_transaction}
use async_task_orchestrator.Http.{get_key}
use async_task_orchestrator.Fmt.{atoi, in_range, read_nat, read_digits, is_digit}
use async_task_orchestrator.Cache.{cache_get, cache_set}
use async_task_orchestrator.Auth.Context.{get_user_id_from_context, as_user_id}
use async_task_orchestrator.Queue.Connect.{create_channel}
use async_task_orchestrator.Task.Repository.{create, get_by_id, scanned, finished, get_by_user_id}
use async_task_orchestrator.System.Tables.{Sound}
use async_task_orchestrator.System.Owners.{Owned}
use async_task_orchestrator.System.History.{
  Fades, History, Empty, Later, at_once, next, request, round, served, after_round, create_task,
  get_task, get_tasks, register,
}
use async_task_orchestrator.System.Answers.{
  History-Sound, History-Shown, History-Listed, History-Owned,
}
use async_task_orchestrator.Samples.Program.{
  ctx, libraries, secret, begun, moment, created, worked, Past, begun-Empty, worked_later,
  created-History, worked-History,
}
use async_task_orchestrator.System.Accounts.{LoggedIn, History-LoggedIn}
use async_task_orchestrator.System.History as Endpoint
use async_task_orchestrator.Auth.Jwt.{second, TokenPair, generate_token_pair, generate_token}
use async_task_orchestrator.Auth.Password.{generate_password_hash, compare_password_hash}
use async_task_orchestrator.User.Repository.{get_by_username}
use async_task_orchestrator.User.Repository as Users
use async_task_orchestrator.User.Service.{insert_in, store_user, create_user, compared, login_user}
use async_task_orchestrator.User.Controller.{login_response, register_bound, login_bound}
use async_task_orchestrator.User.Controller as Controller

History-Sound_example : Sound (memory-Laws.committed worked.db)
History-Sound_example =
    History-Sound memory store rabbit libraries secret tt broker unmarshal_payload memory-Laws
      store-RedisLaws codec-JsonLaws worked worked-History

abbrev row : Task
row = record (task_row (pos 101) (pos 1) "send_email" "PENDING") {
  created_at = 100;
  updated_at = 100;
}

stored : find_task (pos 101) (memory-Laws.committed created.db).tasks ≡ some row
unfolding served create_task_handler create_bound create_for
    async_task_orchestrator.Task.Service.create_task publish_task create create_channel
    with_transaction in_transaction find_task inserted get_user_id_from_context as_user_id get_key
    atoi in_range read_nat read_digits is_digit
stored = (ap (λ d. find_task (pos 101) d.tasks) (memory_committed created.db)) ∙ refl

shown :
    (served memory store rabbit libraries secret tt broker unmarshal_payload get_task moment ctx
      created).0
    ≡ ok (task_response row)
unfolding served create_task_handler create_bound create_for
    async_task_orchestrator.Task.Service.create_task publish_task create create_channel
    with_transaction in_transaction find_task inserted get_user_id_from_context as_user_id get_key
    atoi in_range read_nat read_digits is_digit get_task_handler get_task_by show_task
    async_task_orchestrator.Task.Service.get_task cached_task load_task get_by_id cache_get
    cache_set
shown = refl

History-Owned_example : Owned (memory-Laws.committed worked.db) (pos 101) row
History-Owned_example =
    History-Owned memory store rabbit libraries secret tt broker unmarshal_payload memory-Laws
      store-RedisLaws codec-JsonLaws created worked (pos 101) row created-History worked_later
      stored

History-Shown_example :
    Shown memory store rabbit memory-Laws codec store-RedisLaws codec-JsonLaws
      (Owned (memory-Laws.committed created.db))
      ctx
      (task_response row)
History-Shown_example =
    History-Shown memory store rabbit libraries secret tt broker unmarshal_payload memory-Laws
      store-RedisLaws codec-JsonLaws created moment ctx (task_response row) created-History shown
      refl

listed :
    (served memory store rabbit libraries secret tt broker unmarshal_payload get_tasks moment ctx
      created).0
    ≡ ok (tasks_response (row ∷ []))
unfolding served create_task_handler create_bound create_for
    async_task_orchestrator.Task.Service.create_task publish_task create create_channel
    with_transaction in_transaction find_task inserted get_user_id_from_context as_user_id get_key
    atoi in_range read_nat read_digits is_digit get_tasks_by_user list_tasks
    async_task_orchestrator.Task.Service.get_tasks cached_tasks load_tasks get_by_user_id scanned
    finished cache_get cache_set tasks_of
listed = refl

History-Listed_example :
    Listed memory store rabbit codec memory-Laws store-RedisLaws codec-JsonLaws
      (Owned (memory-Laws.committed created.db))
      ctx
      (tasks_response (row ∷ []))
History-Listed_example =
    History-Listed memory store rabbit libraries secret tt broker unmarshal_payload memory-Laws
      store-RedisLaws codec-JsonLaws created moment ctx (tasks_response (row ∷ [])) created-History
      listed refl

abbrev joined : App memory store rabbit
joined =
    (served memory store rabbit libraries secret tt broker unmarshal_payload register moment ctx
      begun).1

abbrev joined_history : Past joined
joined_history = record {
  start = begun;
  empty = begun-Empty;
  since = next at_once (request register moment ctx);
}

abbrev tokens : TokenPair
tokens = record {
  access = 0 ∷ 101 ∷ 0 ∷ 900 * second ∷ 0 ∷ 0 ∷ secret;
  refresh = 0 ∷ 101 ∷ 1 ∷ 604800 * second ∷ 0 ∷ 0 ∷ secret;
  expires_in = 900;
}

logged_in :
    (served memory store rabbit libraries secret tt broker unmarshal_payload Endpoint.login moment
      ctx joined).0
    ≡ ok (login_response tokens)
unfolding served Controller.register register_bound Controller.login login_bound create_user
    store_user insert_in Users.create get_by_username generate_password_hash find_username find_user
    inserted login_user compared compare_password_hash generate_token_pair generate_token
logged_in = refl

History-LoggedIn_example :
    LoggedIn memory store rabbit libraries secret tt broker unmarshal_payload memory-Laws
      store-RedisLaws codec-JsonLaws begun joined ctx
      (login_response tokens)
History-LoggedIn_example =
    History-LoggedIn memory store rabbit libraries secret tt broker unmarshal_payload memory-Laws
      store-RedisLaws codec-JsonLaws joined moment ctx (login_response tokens) joined_history
      logged_in refl

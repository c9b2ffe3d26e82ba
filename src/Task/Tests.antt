-- ===== src/Task/Tests.antt =====
-- The task service on a database, a cache and a broker in memory.
use async_task_orchestrator.Prelude.{
  arith, ℤ, ℕ, ◌≡◌, refl, pos, String, Text, Bool, true, codes, [], ◌∷◌, none, some, Option, List,
  ◌≢◌, arith,
}
use async_task_orchestrator.Go.{Outcome, ok, Error, new, wrap, err}
use async_task_orchestrator.Sql.Tables.{Task, find_task, tasks_of, inserted, insert_task}
use async_task_orchestrator.Utils.Tx.{with_transaction, in_transaction}
use async_task_orchestrator.Http.{Context, int, get_key}
use async_task_orchestrator.Fmt.{
  decimal, decimal_nat, digits, atoi, in_range, read_nat, read_digits, is_digit,
}
use async_task_orchestrator.Cache.{task_key, user_tasks_key, cache_get, cache_set}
use async_task_orchestrator.Auth.Context.{get_user_id_from_context, as_user_id}
use async_task_orchestrator.Queue.Connect.{create_channel, Amqp}
use async_task_orchestrator.Task.Repository.{create, get_by_id, scanned, finished, get_by_user_id}
use async_task_orchestrator.Task.Service.{
  App, publish_task, create_task, load_task, cached_task, get_task, load_tasks, cached_tasks,
  get_tasks,
}
use async_task_orchestrator.Task.Caching.{Coherent, IsRow, OwnedBy}
use async_task_orchestrator.Task.Fresh.{get_task-found, get_task-Coherent}
use async_task_orchestrator.Task.Stale.{get_task-stale}
use async_task_orchestrator.Task.Pending.{Pending, create_task_handler-Pending}
use async_task_orchestrator.Task.Creates.{Created, create_task_done, create_task_orphaned}
use async_task_orchestrator.Task.Controller.{
  new_task, created_response, task_response, create_for, create_bound, create_task_handler,
  show_task, get_task_by, get_task_handler, tasks_response, list_tasks, get_tasks_by_user,
}
use async_task_orchestrator.Task.Access.{Shown, get_task_handler_owned}
use async_task_orchestrator.Task.Listing.{Listed, get_tasks-OwnedBy, get_tasks_by_user-Listed}
use async_task_orchestrator.Queue.Message.{Publishing}
use async_task_orchestrator.Samples.Memory.{memory, memory-Laws, holding, task_row}
use async_task_orchestrator.Samples.Redis.{store, store-RedisLaws}
use async_task_orchestrator.Samples.Services.{rabbit, sample, codec, codec-JsonLaws}

abbrev no_cache : Text → Option Text
no_cache key = none

abbrev start : App memory store rabbit
start = record { db = holding (sample ∷ []) [] []; redis = no_cache; broker = [] }

start-Coherent : Coherent memory store rabbit codec memory-Laws store-RedisLaws start
start-Coherent = record {
  of_task =
      λ id x t h k. let e = store-RedisLaws.get_value (task_key id) no_cache none refl in absurd cc;
  of_user = λ id x ts h k.
      let e = store-RedisLaws.get_value (user_tasks_key id) no_cache none refl in absurd cc;
}

sample_got : (get_task memory store rabbit codec (pos 7) start).0 ≡ ok sample
unfolding get_task cached_task load_task get_by_id cache_get cache_set find_task
sample_got = refl

get_task-found_test : find_task (pos 7) (memory-Laws.committed start.db).tasks ≡ some sample
get_task-found_test =
    get_task-found memory store rabbit codec memory-Laws store-RedisLaws codec-JsonLaws (pos 7)
      start sample start-Coherent sample_got

get_task-Coherent_example :
    Coherent memory store rabbit codec memory-Laws store-RedisLaws
      (get_task memory store rabbit codec (pos 7) start).1
    × (memory-Laws.committed (get_task memory store rabbit codec (pos 7) start).1.db
        ≡ memory-Laws.committed start.db)
get_task-Coherent_example =
    get_task-Coherent memory store rabbit codec memory-Laws store-RedisLaws codec-JsonLaws (pos 7)
      start start-Coherent

sample_read : (get_by_id memory (pos 7) start.db).0 ≡ ok sample
unfolding get_by_id find_task
sample_read = refl

-- The worker has finished the task in between, and another entry was put into the cache.
abbrev later : App memory store rabbit
later = record (load_task memory store rabbit codec (pos 7) start).1 {
  db = holding (task_row (pos 7) (pos 1) "send_email" "SUCCESS" ∷ []) [] [];
  redis =
      (store.put (user_tasks_key (pos 1)) (codes "other") 600
        (load_task memory store rabbit codec (pos 7) start).1.redis).1;
}

other_key : user_tasks_key (pos 1) ≢ task_key (pos 7)
unfolding task_key user_tasks_key decimal decimal_nat digits
other_key h = ground arith

still_there :
    store-RedisLaws.value (task_key (pos 7)) later.redis
    ≡ store-RedisLaws.value
        (task_key (pos 7))
        (load_task memory store rabbit codec (pos 7) start).1.redis
still_there =
    store-RedisLaws.put_others (user_tasks_key (pos 1)) (task_key (pos 7)) (codes "other") 600
      (load_task memory store rabbit codec (pos 7) start).1.redis other_key

sample_cached : (store.get (task_key (pos 7)) later.redis).0 ≡ ok (some [])
unfolding user_tasks_key load_task get_by_id cache_set find_task task_key decimal decimal_nat digits
sample_cached = refl

get_task-stale_example : (get_task memory store rabbit codec (pos 7) later).0 ≡ ok sample
get_task-stale_example =
    get_task-stale memory store rabbit codec store-RedisLaws codec-JsonLaws (pos 7) start sample []
      later (some []) sample_read refl refl still_there sample_cached

abbrev printable : ℕ → Bool
printable c = true

abbrev asked : Task
asked = new_task (pos 1) "send_email"

abbrev numbered : Task
numbered = record asked { id = pos 101 }

asked_done : (create_task memory store rabbit tt printable asked start).0 ≡ ok numbered
unfolding create_task publish_task create create_channel with_transaction in_transaction find_task
asked_done = refl

create_task_done_test :
    Created memory store rabbit memory-Laws tt printable asked start numbered
      (create_task memory store rabbit tt printable asked start).1
create_task_done_test =
    (create_task_done memory store rabbit memory-Laws tt printable asked start numbered
      asked_done).0

abbrev StartRow : ℤ → Task → Type 0
StartRow = IsRow memory store rabbit codec memory-Laws store-RedisLaws start

abbrev request : Context
request = record {
  authorization = [];
  id_param = codes "7";
  body = codes "{}";
  keys = ("userID", int (pos 1)) ∷ [];
}

shown : (get_task_handler memory store rabbit codec request start).0 ≡ ok (task_response sample)
unfolding get_task_handler get_task_by show_task get_task cached_task load_task get_by_id cache_get
    cache_set find_task atoi in_range read_nat read_digits is_digit get_user_id_from_context
    as_user_id get_key
shown = refl

get_task_handler_owned_test :
    Shown memory store rabbit memory-Laws codec store-RedisLaws codec-JsonLaws StartRow request
      (task_response sample)
get_task_handler_owned_test =
    get_task_handler_owned memory store rabbit memory-Laws codec store-RedisLaws codec-JsonLaws
      request start (task_response sample) start-Coherent shown refl

abbrev send_email : Text → Outcome String
send_email body = ok "send_email"

accepted :
    (create_task_handler memory store rabbit tt printable send_email request start).0
    ≡ ok (created_response numbered)
unfolding create_task_handler create_bound create_for create_task publish_task create create_channel
    with_transaction in_transaction find_task get_user_id_from_context as_user_id get_key
accepted = refl

create_task_handler-Pending_example :
    Pending memory store rabbit memory-Laws tt printable send_email request start
      (created_response numbered)
      (create_task_handler memory store rabbit tt printable send_email request start).1
create_task_handler-Pending_example =
    create_task_handler-Pending memory store rabbit memory-Laws tt printable send_email request
      start (created_response numbered) accepted refl

listed : (get_tasks memory store rabbit codec (pos 1) start).0 ≡ ok (sample ∷ [])
unfolding get_tasks cached_tasks load_tasks get_by_user_id scanned finished cache_get cache_set
    tasks_of
listed = refl

get_tasks-OwnedBy_test : OwnedBy (pos 1) (sample ∷ [])
get_tasks-OwnedBy_test =
    get_tasks-OwnedBy memory store rabbit codec memory-Laws store-RedisLaws codec-JsonLaws StartRow
      (pos 1) start (sample ∷ []) start-Coherent listed

listed_answer :
    (get_tasks_by_user memory store rabbit codec request start).0
    ≡ ok (tasks_response (sample ∷ []))
unfolding get_tasks_by_user list_tasks get_user_id_from_context as_user_id get_key get_tasks
    cached_tasks load_tasks get_by_user_id scanned finished cache_get cache_set tasks_of
listed_answer = refl

get_tasks_by_user-Listed_test :
    Listed memory store rabbit codec memory-Laws store-RedisLaws codec-JsonLaws StartRow request
      (tasks_response (sample ∷ []))
get_tasks_by_user-Listed_test =
    get_tasks_by_user-Listed memory store rabbit codec memory-Laws store-RedisLaws codec-JsonLaws
      StartRow request start (tasks_response (sample ∷ [])) start-Coherent listed_answer refl

-- The broker accepts no further channel.
abbrev closed : Amqp (List Publishing)
closed = record rabbit { channel = λ conn s. (err (new "channel limit"), s) }

abbrev channel_error : Error
channel_error = wrap "failed to open a channel: " (new "channel limit")

abbrev start_closed : App memory store closed
start_closed = record { db = holding [] [] []; redis = no_cache; broker = [] }

asked_stored :
    (with_transaction memory (λ tx. create memory tx asked) start_closed.db).0 ≡ ok (pos 101)
unfolding with_transaction in_transaction create find_task
asked_stored = refl

no_channel : (create_channel closed tt start_closed.broker).0 ≡ err channel_error
unfolding create_channel
no_channel = refl

create_task_orphaned_example :
    ((create_task memory store closed tt printable asked start_closed).0 ≡ err channel_error)
    × ((time : ℕ) × (memory-Laws.committed
            (create_task memory store closed tt printable asked start_closed).1.db
          ≡ inserted time
              (pos 101)
              (insert_task (pos 1) "send_email" "PENDING")
              (memory-Laws.committed start_closed.db)))
    × ((create_task memory store closed tt printable asked start_closed).1.broker
        ≡ (create_channel closed tt start_closed.broker).1)
create_task_orphaned_example =
    create_task_orphaned memory store closed memory-Laws tt printable asked start_closed (pos 101)
      channel_error refl asked_stored no_channel

-- ===== src/Cmd/Tests.antt =====
-- The main programs with services that answer at once.
use async_task_orchestrator.Prelude.{◌≡◌, refl, String, str_eq, if◌then◌else◌, [], List}
use async_task_orchestrator.Go.{ok}
use async_task_orchestrator.Fmt.{atoi, in_range, read_nat, read_digits, is_digit}
use async_task_orchestrator.Config.{load}
use async_task_orchestrator.Db.{Pool, init, connect, dsn}
use async_task_orchestrator.Cache.Connect.{RedisDriver, setup_redis, connect_to}
use async_task_orchestrator.Queue.Message.{Publishing}
use async_task_orchestrator.Queue.Connect.{Amqp, setup_rabbit_mq, create_channel, declare_queue}
use async_task_orchestrator.Queue.Connect as Connect
use async_task_orchestrator.Worker.Pool.{worker_ids}
use async_task_orchestrator.Cmd.Api.{Server, close_all}
use async_task_orchestrator.Cmd.Api as Api
use async_task_orchestrator.Cmd.Workers.{Started, prepare_queue}
use async_task_orchestrator.Cmd.Workers as Workers
use async_task_orchestrator.Cmd.Closes.{Served, main-Served}
use async_task_orchestrator.Cmd.Started.{WorkersRun, main-WorkersRun}
use async_task_orchestrator.Samples.Services.{rabbit}

abbrev ready : Pool (List Publishing)
ready = record {
  Handle = Unit;
  open_pool = λ source s. (ok tt, s);
  ping = λ db s. (ok tt, s);
  close = λ db s. (ok tt, s);
  set_limits = λ db a b c d s. s;
  sleep = λ k s. s;
}

abbrev redis : RedisDriver (List Publishing)
redis = record { Client = Unit; new_client = λ address password n. tt; ping = λ rdb s. (ok tt, s) }

abbrev server : Server (List Publishing) ready redis rabbit
server = record {
  close_redis = λ rdb s. (ok tt, s);
  close_connection = λ conn s. (ok tt, s);
  serve = λ db conn rdb cfg s. (ok tt, s);
}

abbrev settings : String → String
settings name = if str_eq name "REDIS_DB" then "0" else "x"

api_ends : (Api.main ready redis rabbit server settings []).0 ≡ ok tt
unfolding Api.main close_all load init connect dsn setup_redis connect_to setup_rabbit_mq
    Connect.connect atoi in_range read_nat read_digits is_digit
api_ends = refl

main-Served_example :
    Served ready redis rabbit server settings (Api.main ready redis rabbit server settings []).1
main-Served_example = main-Served ready redis rabbit server settings [] api_ends

abbrev workers : Started ready rabbit
workers = record { db = tt; conn = tt; ids = worker_ids }

workers_run : (Workers.main ready rabbit settings []).0 ≡ ok workers
unfolding Workers.main prepare_queue load init connect dsn setup_rabbit_mq Connect.connect
    create_channel declare_queue
workers_run = refl

main-WorkersRun_example :
    WorkersRun ready rabbit settings workers (Workers.main ready rabbit settings []).1
main-WorkersRun_example = main-WorkersRun ready rabbit settings [] workers workers_run

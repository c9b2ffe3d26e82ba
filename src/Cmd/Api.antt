-- ===== src/Cmd/Api.antt =====
-- cmd/api/main.go. logrus.Fatal ends the process, and no further deferred call is made.
use async_task_orchestrator.Prelude.{String}
use async_task_orchestrator.Go.{M, pure, throw, handle, ◌>>=◌, ◌>>◌}
use async_task_orchestrator.Config.{Config, load}
use async_task_orchestrator.Db.{Pool, init}
use async_task_orchestrator.Cache.Connect.{RedisDriver, setup_redis}
use async_task_orchestrator.Queue.Connect.{Amqp, setup_rabbit_mq}

-- rdb.Close and conn.Close, and the time from handler.SetupHandler to the signal that ends the
-- program, in which the server answers requests; if the server fails, that ends the process.
pub record Server (S : Type 0) (p : Pool S) (d : RedisDriver S) (a : Amqp S) : Type 1 where
  pub close_redis : d.Client → M S (Unit {0})
  pub close_connection : a.Connection → M S (Unit {0})
  pub serve : p.Handle → a.Connection → d.Client → Config → M S (Unit {0})

module _ {S : Type 0} (p : Pool S) (d : RedisDriver S) (a : Amqp S) (srv : Server S p d a) where
  -- `defer func() { if err := x.Close(); err != nil { logrus.Fatal(...) } }()`
  abbrev pub closing : M S (Unit {0}) → String → M S (Unit {0})
  closing m message = handle m pure (λ e. throw message)

  -- The deferred calls, the last one first.
  unfoldable pub close_all : p.Handle → d.Client → a.Connection → M S (Unit {0})
  close_all db rdb conn =
      closing (srv.close_connection conn) "Failed to close RabbitMQ connection"
      >> (closing (srv.close_redis rdb) "Failed to close redis connection"
          >> closing (p.close db) "Failed to close database connection")

  unfoldable pub main : (String → String) → M S (Unit {0})
  main getenv =
      let config = load getenv in
      init p config.db >>= λ db. setup_redis d config.redis >>= λ rdb.
      setup_rabbit_mq a config.rabbit_mq.url >>= λ conn.
      srv.serve db conn rdb config >> close_all db rdb conn

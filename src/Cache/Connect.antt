-- ===== src/Cache/Connect.antt =====
-- internal/cache/redis.go: connecting to Redis.
use Prim.Native.String.{◌++◌}
use async_task_orchestrator.Prelude.{ℤ, String, Option, none, some, codes}
use async_task_orchestrator.Go.{M, pure, throw, handle}
use async_task_orchestrator.Fmt.{atoi}
use async_task_orchestrator.Config.{RedisConfig}

-- redis.NewClient, given the address, the password and the number of the database, and Ping.
pub record RedisDriver (S : Type 0) : Type 1 where
  pub Client : Type 0
  pub new_client : String → String → ℤ → Client
  pub ping : Client → M S (Unit {0})

module _ {S : Type 0} (d : RedisDriver S) where
  -- After the number of the database was read. logrus.Fatalf ends the process.
  unfoldable pub connect_to : RedisConfig → Option ℤ → M S d.Client
  connect_to cfg none = throw "Invalid Redis DB number"
  connect_to cfg (some db) =
      let rdb = d.new_client (cfg.host ++ ":" ++ cfg.port) cfg.redis_password db in
      handle (d.ping rdb) (λ _. pure rdb) (λ e. throw "Failed to connect to Redis")

  unfoldable pub setup_redis : RedisConfig → M S d.Client
  unfolding connect_to
  setup_redis cfg = connect_to cfg (atoi (codes cfg.redis_db))

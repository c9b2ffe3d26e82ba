-- ===== src/Db.antt =====
-- internal/db/postgres.go: connecting to the database with retries. The driver and database/sql are
-- not part of the repository: their calls are a parameter.
pub mod Ready
pub mod Tests
use Prim.Native.String.{◌++◌}
use async_task_orchestrator.Prelude.{ℕ, zero, suc, ◌+◌, String}
use async_task_orchestrator.Go.{M, pure, throw, handle, ignoring, ok, ◌>>=◌}
use async_task_orchestrator.Config.{DbConfig}

-- sql.Open for the driver "pgx", and Ping, Close and the four limits of a pool (connections, idle
-- connections, and two times in seconds); `sleep` is time.Sleep in seconds.
pub record Pool (S : Type 0) : Type 1 where
  pub Handle : Type 0
  pub open_pool : String → M S Handle
  pub ping : Handle → M S (Unit {0})
  pub close : Handle → M S (Unit {0})
  pub set_limits : Handle → ℕ → ℕ → ℕ → ℕ → S → S
  pub sleep : ℕ → S → S

unfoldable pub dsn : DbConfig → String
dsn cfg =
    "host=" ++ cfg.host ++ " port=" ++ cfg.port ++ " user=" ++ cfg.user ++ " password="
    ++ cfg.password ++ " dbname=" ++ cfg.name ++ " sslmode=" ++ cfg.ssl_mode

module _ {S : Type 0} (p : Pool S) where
  -- The loop: `left` rounds are left, and `i` have been made. log.Fatalf ends the process.
  unfoldable pub connect : String → ℕ → ℕ → M S p.Handle
  connect source zero i = throw "Failed to connect to database"
  connect source (suc left) i =
      let again = connect source left (i + 1) in
      handle (p.open_pool source)
        (λ db.
          handle (p.ping db) (λ _. pure db)
            (λ e. ignoring (p.close db) (λ s. again (p.sleep (i + 1) s))))
        (λ e s. again (p.sleep (i + 1) s))

  unfoldable pub init : DbConfig → M S p.Handle
  unfolding connect dsn
  init cfg = connect (dsn cfg) 5 0 >>= λ db s. (ok db, p.set_limits db 100 10 1800 300 s)

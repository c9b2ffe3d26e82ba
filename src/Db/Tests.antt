-- ===== src/Db/Tests.antt =====
-- A server that answers the third Ping.
use async_task_orchestrator.Prelude.{ℕ, ◌+◌, ltb, ◌≡◌, refl, if◌then◌else◌}
use async_task_orchestrator.Go.{Outcome, ok, err, new}
use async_task_orchestrator.Retry.{Ends}
use async_task_orchestrator.Config.{DbConfig}
use async_task_orchestrator.Db.{Pool, dsn, connect, init}
use async_task_orchestrator.Db.Ready.{opened, limited, init-Ends, Pinged, init-Pinged}

-- The number of the Pings and the seconds that were waited.
abbrev third : Pool (ℕ × ℕ)
third = record {
  Handle = Unit;
  open_pool = λ source s. (ok tt, s);
  ping = λ db (n, w). (if ltb n 2 then err (new "refused") else ok tt, (n + 1, w));
  close = λ db s. (ok tt, s);
  set_limits = λ db a b c d s. s;
  sleep = λ k (n, w). (n, w + k);
}

abbrev settings : DbConfig
settings = record {
  host = "db";
  port = "5432";
  user = "app";
  password = "secret";
  name = "tasks";
  ssl_mode = "disable";
}

dsn_text : dsn settings ≡ "host=db port=5432 user=app password=secret dbname=tasks sslmode=disable"
unfolding dsn
dsn_text = refl

connected : init third settings (0, 0) ≡ (ok tt, (3, 3))
unfolding init connect
connected = refl

returned : (init third settings (0, 0)).0 ≡ ok tt
unfolding init connect
returned = refl

init-Pinged_test :
    (s' : ℕ × ℕ) × Pinged third tt s'
    × ((init third settings (0, 0)).1 ≡ third.set_limits tt 100 10 1800 300 s')
init-Pinged_test = init-Pinged third settings (0, 0) tt returned

init-Ends_example :
    (x : Outcome Unit × (ℕ × ℕ)) × Ends
      (opened third (dsn settings))
      third.sleep
      5
      "Failed to connect to database"
      (0, 0)
      x
    × (init third settings (0, 0) ≡ limited third x)
init-Ends_example = init-Ends third settings (0, 0)

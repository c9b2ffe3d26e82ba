-- ===== src/Cmd/Closes.antt =====
-- How the main program of cmd/api/main.go ends.
use mathlib.Core.Path.{subst}
use async_task_orchestrator.Prelude.{String, ◌≡◌, refl, sym, ap, ◌∙◌}
use async_task_orchestrator.Go.{M, ok, bind-ok, fatal-ok, pure, ◌>>=◌, ◌>>◌}
use async_task_orchestrator.Config.{load}
use async_task_orchestrator.Db.{Pool, init}
use async_task_orchestrator.Db.Ready.{Pinged, init-Pinged}
use async_task_orchestrator.Cache.Connect.{RedisDriver, setup_redis}
use async_task_orchestrator.Queue.Connect.{Amqp, setup_rabbit_mq}
use async_task_orchestrator.Queue.Ready.{Dialed, setup_rabbit_mq-Dialed}
use async_task_orchestrator.Cmd.Api.{Server, closing, close_all, main}

module _ {S : Type 0} where
  -- The call `m` was made in some state, succeeded, and left `now`.
  pub record Done (m : M S (Unit {0})) (before now : S) : Type 0 where
    pub answered : (m before).0 ≡ ok tt
    pub after : now ≡ (m before).1

  module _ (p : Pool S) (d : RedisDriver S) (a : Amqp S) (srv : Server S p d a) where
    closing-Done :
        (m : M S (Unit {0})) (message : String) (s : S)
        → (closing p d a srv m message s).0 ≡ ok tt
        → Done m s (closing p d a srv m message s).1
    closing-Done m message s h =
        let (u, answered, same) = fatal-ok m pure message s tt h in
        record { answered = answered; after = ap (λ x. x.1) same }

    -- The connection to RabbitMQ, the client of Redis and the pool of the database were closed, in
    -- this order, with no other call between.
    pub record AllClosed (db : p.Handle) (rdb : d.Client) (conn : a.Connection) (s now : S)
        : Type 0 where
      pub after_connection : S
      pub after_redis : S
      pub connection : Done (srv.close_connection conn) s after_connection
      pub redis : Done (srv.close_redis rdb) after_connection after_redis
      pub database : Done (p.close db) after_redis now

    close_all-AllClosed :
        (db : p.Handle) (rdb : d.Client) (conn : a.Connection) (s : S)
        → (close_all p d a srv db rdb conn s).0 ≡ ok tt
        → AllClosed db rdb conn s (close_all p d a srv db rdb conn s).1
    unfolding close_all
    close_all-AllClosed db rdb conn s h =
        let first =
          closing p d a srv (srv.close_connection conn) "Failed to close RabbitMQ connection" in
        let second = closing p d a srv (srv.close_redis rdb) "Failed to close redis connection" in
        let third = closing p d a srv (p.close db) "Failed to close database connection" in
        let (u, e, same) = bind-ok first (λ _. second >> third) s tt h in
        let s1 = (first s).1 in
        let (u', e', same') = bind-ok second (λ _. third) s1 tt (sym (ap (λ x. x.0) same) ∙ h) in
        let s2 = (second s1).1 in
        let e'' : (third s2).0 ≡ ok tt = sym (ap (λ x. x.0) (same ∙ same')) ∙ h in
        let last = closing-Done (p.close db) "Failed to close database connection" s2 e'' in
        record {
          after_connection = s1;
          after_redis = s2;
          connection =
              closing-Done (srv.close_connection conn) "Failed to close RabbitMQ connection" s e;
          redis = closing-Done (srv.close_redis rdb) "Failed to close redis connection" s1 e';
          database = record {
            answered = last.answered;
            after = ap (λ x. x.1) (same ∙ same') ∙ last.after;
          };
        }

    -- What the program had when it began to serve, and how it ended.
    pub record Served (getenv : String → String) (now : S) : Type 0 where
      pub db : p.Handle
      pub rdb : d.Client
      pub conn : a.Connection
      pub pinged_at : S
      pub pinged : Pinged p db pinged_at
      pub dialed_at : S
      pub dialed : Dialed a (load getenv).rabbit_mq.url conn dialed_at
      pub served_at : S
      pub served : Done (srv.serve db conn rdb (load getenv)) dialed_at served_at
      pub closed : AllClosed db rdb conn served_at now

    -- If the main program of the API returns, it has served with a database that answered a ping
    -- and a connection that RabbitMQ accepted, and after that it has closed the connection, the
    -- client of Redis and the pool of the database, all with success.
    pub main-Served :
        (getenv : String → String) (s : S)
        → (main p d a srv getenv s).0 ≡ ok tt
        → Served getenv (main p d a srv getenv s).1
    unfolding main
    main-Served getenv s h =
        let cfg = load getenv in
        let closes = λ (db : p.Handle) (rdb : d.Client) (conn : a.Connection).
          srv.serve db conn rdb cfg >> close_all p d a srv db rdb conn in
        let dials = λ (db : p.Handle) (rdb : d.Client).
          setup_rabbit_mq a cfg.rabbit_mq.url >>= λ conn. closes db rdb conn in
        let (db, e1, same1) =
          bind-ok (init p cfg.db) (λ db. setup_redis d cfg.redis >>= λ rdb. dials db rdb) s tt h in
        let s1 = (init p cfg.db s).1 in
        let (rdb, e2, same2) =
          bind-ok (setup_redis d cfg.redis) (λ rdb. dials db rdb) s1 tt
            (sym (ap (λ x. x.0) same1) ∙ h) in
        let s2 = (setup_redis d cfg.redis s1).1 in
        let (conn, e3, same3) =
          bind-ok (setup_rabbit_mq a cfg.rabbit_mq.url) (λ conn. closes db rdb conn) s2 tt
            (sym (ap (λ x. x.0) (same1 ∙ same2)) ∙ h) in
        let s3 = (setup_rabbit_mq a cfg.rabbit_mq.url s2).1 in
        let (u, e4, same4) =
          bind-ok (srv.serve db conn rdb cfg) (λ _. close_all p d a srv db rdb conn) s3 tt
            (sym (ap (λ x. x.0) (same1 ∙ same2 ∙ same3)) ∙ h) in
        let s4 = (srv.serve db conn rdb cfg s3).1 in
        let all = same1 ∙ same2 ∙ same3 ∙ same4 in
        let (pinged_at, pinged, limits) = init-Pinged p cfg.db s db e1 in
        record {
          db = db;
          rdb = rdb;
          conn = conn;
          pinged_at = pinged_at;
          pinged = pinged;
          dialed_at = s3;
          dialed = setup_rabbit_mq-Dialed a cfg.rabbit_mq.url s2 conn e3;
          served_at = s4;
          served = record { answered = e4; after = refl };
          closed =
              subst (AllClosed db rdb conn s4) (sym (ap (λ x. x.1) all))
                (close_all-AllClosed db rdb conn s4 (sym (ap (λ x. x.0) all) ∙ h));
        }

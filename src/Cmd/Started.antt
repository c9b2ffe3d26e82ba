-- ===== src/Cmd/Started.antt =====
-- What the main program of cmd/worker/main.go has done when its workers run.
use mathlib.Core.Path.{subst}
use async_task_orchestrator.Prelude.{
  String, true, false, ◌≡◌, refl, sym, ap, ◌∙◌, inl, inr, ◌∷◌, [],
}
use async_task_orchestrator.Go.{Outcome-cases, ok, bind-ok, ok-injective, pure, ◌>>=◌}
use async_task_orchestrator.Config.{load}
use async_task_orchestrator.Db.{Pool, init}
use async_task_orchestrator.Db.Ready.{Pinged, init-Pinged}
use async_task_orchestrator.Queue.Connect.{Amqp, setup_rabbit_mq, create_channel, declare_queue}
use async_task_orchestrator.Queue.Ready.{Dialed, setup_rabbit_mq-Dialed}
use async_task_orchestrator.Worker.Pool.{worker_ids}
use async_task_orchestrator.Cmd.Workers.{Started, prepare_queue, main}

module _ {S : Type 0} (a : Amqp S) where
  -- A channel of the connection was opened, the broker declared task_queue as durable on it, and
  -- it was closed, with no other call between.
  pub record Declared (conn : a.Connection) (s now : S) : Type 0 where
    pub ch : a.Ch
    pub opened : (a.channel conn s).0 ≡ ok ch
    pub declared :
        (a.queue_declare ch "task_queue" true false false false (a.channel conn s).1).0 ≡ ok tt
    pub closed :
        (a.close ch (a.queue_declare ch "task_queue" true false false false (a.channel conn s).1).1)
        ≡ (ok tt, now)

  prepare_queue-Declared :
      (conn : a.Connection) (s : S)
      → (prepare_queue a conn s).0 ≡ ok tt
      → Declared conn s (prepare_queue a conn s).1
  unfolding prepare_queue create_channel declare_queue
  prepare_queue-Declared conn s h = elim (Outcome-cases (a.channel conn s).0) [
    | inl (ch, opened) ↦
        let s1 = (a.channel conn s).1 in
        let declare = a.queue_declare ch "task_queue" true false false false s1 in
        elim (Outcome-cases declare.0) [
          | inl (u, declared) ↦ elim (Outcome-cases (a.close ch declare.1).0) [
            | inl (v, closed) ↦ record {
              ch = ch;
              opened = opened;
              declared = declared;
              closed = rw (opened, declared, closed) refl;
            }
            | inr (inl (e, failed)) ↦ absurd (cc (rw (opened, declared, failed) at h))
            | inr (inr (x, failed)) ↦ absurd (cc (rw (opened, declared, failed) at h))
          ]
          | inr (inl (e, failed)) ↦ absurd (cc (rw (opened, failed) at h))
          | inr (inr (x, failed)) ↦ absurd (cc (rw (opened, failed) at h))
        ]
    | inr (inl (e, failed)) ↦ absurd (cc (rw failed at h))
    | inr (inr (x, failed)) ↦ absurd (cc (rw failed at h))
  ]

-- What the workers share, and what was done for them before they were started.
pub record WorkersRun {S : Type 0} (p : Pool S) (a : Amqp S) (getenv : String → String)
    (run : Started p a) (now : S) : Type 0 where
  pub pinged_at : S
  pub pinged : Pinged p run.db pinged_at
  pub dialed_at : S
  pub dialed : Dialed a (load getenv).rabbit_mq.url run.conn dialed_at
  pub declared : Declared a run.conn dialed_at now
  pub three : run.ids ≡ 1 ∷ 2 ∷ 3 ∷ []

-- If the main program of the workers starts them, they share a database that answered a ping and a
-- connection that RabbitMQ accepted, and on that connection the durable queue task_queue was
-- declared first; there are three workers, numbered 1, 2 and 3.
pub main-WorkersRun :
    {S : Type 0} (p : Pool S) (a : Amqp S) (getenv : String → String) (s : S) (run : Started p a)
    → (main p a getenv s).0 ≡ ok run
    → WorkersRun p a getenv run (main p a getenv s).1
unfolding main worker_ids
main-WorkersRun p a getenv s run h =
    let cfg = load getenv in
    let result = λ (db : p.Handle) (conn : a.Connection).
      prepare_queue a conn >>= λ _. pure (record { db = db; conn = conn; ids = worker_ids }) in
    let dials = λ (db : p.Handle). setup_rabbit_mq a cfg.rabbit_mq.url >>= λ conn. result db conn in
    let (db, e1, same1) = bind-ok (init p cfg.db) dials s run h in
    let s1 = (init p cfg.db s).1 in
    let (conn, e2, same2) =
      bind-ok (setup_rabbit_mq a cfg.rabbit_mq.url) (λ conn. result db conn) s1 run
        (sym (ap (λ x. x.0) same1) ∙ h) in
    let s2 = (setup_rabbit_mq a cfg.rabbit_mq.url s1).1 in
    let (u, e3, same3) =
      bind-ok (prepare_queue a conn) (λ _. pure (record { db = db; conn = conn; ids = worker_ids }))
        s2 run (sym (ap (λ x. x.0) (same1 ∙ same2)) ∙ h) in
    let all = same1 ∙ same2 ∙ same3 in
    let e : record { db = db; conn = conn; ids = worker_ids } ≡ run =
      ok-injective (sym (ap (λ x. x.0) all) ∙ h) in
    let (pinged_at, pinged, limits) = init-Pinged p cfg.db s db e1 in
    subst (λ r. WorkersRun p a getenv r (main p a getenv s).1) e
      (record {
        pinged_at = pinged_at;
        pinged = pinged;
        dialed_at = s2;
        dialed = setup_rabbit_mq-Dialed a cfg.rabbit_mq.url s1 conn e2;
        declared =
            subst (Declared a conn s2) (sym (ap (λ x. x.1) all))
              (prepare_queue-Declared a conn s2 e3);
        three = refl;
      })

-- ===== src/Task/Creates.antt =====
-- CreateTask of internal/task/service.go: the row and the message of a new task.
use async_task_orchestrator.Prelude.{
  refl, ℕ, ℤ, pos, ◌=ℤ◌, str_eq, Bool, ◌||◌, Bool-cases, ◌≡◌, sym, ap, ◌∙◌, arith, inl, inr, none,
  false,
}
use async_task_orchestrator.Task.Service.{on_broker, App, task_message, publish_task, create_task}
use async_task_orchestrator.Go.{
  deferring, pure, ◌>>=◌, err, Error, Outcome-cases, ok, M, ok-injective,
}
use mathlib.Core.Path.{subst}
use async_task_orchestrator.Sql.{Database, Laws}
use async_task_orchestrator.Sql.Tables.{Task, insert_task, inserted, find_task}
use async_task_orchestrator.Utils.Tx.{with_transaction}
use async_task_orchestrator.Utils.Atomic.{with_transaction_ok}
use async_task_orchestrator.Cache.{RedisClient}
use async_task_orchestrator.Queue.Connect.{Amqp, create_channel}
use async_task_orchestrator.Task.Repository.{create}

module _ (q : Database) (r : RedisClient) {B : Type 0} (a : Amqp B) (laws : Laws q)
    (conn : a.Connection) (is_print : ℕ → Bool) where
  open laws use {committed}

  -- The task has a new row, and a message for it was published to the task queue.
  pub record Created (task : Task) (before : App q r a) (t : Task) (now : App q r a) : Type 0 where
    pub key : ℤ
    pub time : ℕ
    pub identified : t ≡ record task { id = key }
    pub fresh : find_task key (committed before.db).tasks ≡ none
    pub stored :
        committed now.db
        ≡ inserted time key
            (insert_task task.user_id task.task_type task.status)
            (committed before.db)
    pub channel : a.Ch
    pub at_publish : B
    pub published : (a.publish channel (task_message q r a is_print t) at_publish).0 ≡ ok tt

  -- The broker opened a channel of the connection, and took the task's message on it.
  pub record Sent (before : B) (t : Task) : Type 0 where
    pub channel : a.Ch
    pub opened : (create_channel a conn before).0 ≡ ok channel
    pub published :
        (a.publish channel (task_message q r a is_print t) (create_channel a conn before).1).0
        ≡ ok tt

  deferring-ok :
      (m close : M (App q r a) (Unit {0})) (s : App q r a)
      → (deferring m close s).0 ≡ ok tt
      → (m s).0 ≡ ok tt
  deferring-ok m close s h = elim (Outcome-cases (close (m s).1).0) [
    | inl (u, done) ↦ rw done at h
    | inr (inl (e, failed)) ↦ rw failed at h
    | inr (inr (p, failed)) ↦ absurd (cc (rw failed at h))
  ]

  publish_task-Sent :
      (t : Task) (s : App q r a)
      → (publish_task q r a conn is_print t s).0 ≡ ok tt
      → Sent s.broker t
  unfolding publish_task
  publish_task-Sent t s h = elim (Outcome-cases (create_channel a conn s.broker).0) [
    | inl (ch, opened) ↦ record {
      channel = ch;
      opened = opened;
      published =
          deferring-ok (on_broker q r a (a.publish ch (task_message q r a is_print t)))
            (on_broker q r a (a.close ch))
            (record s { broker = (create_channel a conn s.broker).1 }) (rw opened at h);
    }
    | inr (inl (e, failed)) ↦ absurd (cc (rw failed at h))
    | inr (inr (p, failed)) ↦ absurd (cc (rw failed at h))
  ]

  pub publish_task-db :
      (t : Task) (s : App q r a) → (publish_task q r a conn is_print t s).1.db ≡ s.db
  unfolding publish_task
  publish_task-db t s = ground arith

  create_committed :
      (task : Task) (d : q.Db) (key : ℤ)
      → (with_transaction q (λ tx. create q tx task) d).0 ≡ ok key
      → (time : ℕ) × (find_task key (committed d).tasks ≡ none)
        × (committed (with_transaction q (λ tx. create q tx task) d).1
            ≡ inserted time key (insert_task task.user_id task.task_type task.status) (committed d))
  unfolding create
  create_committed task d key h =
      let w = with_transaction_ok q laws (λ tx. create q tx task) d key h in
      let sees = laws.begin_sees d w.tx w.opened in
      (
        laws.now w.tx,
        ap (λ c. find_task key c.tasks) (sym sees)
            ∙ laws.insert_task_new w.tx task.user_id task.task_type task.status (q.begin d).1 key
                w.returned,
        w.visible
            ∙ laws.insert_sees w.tx _ (q.begin d).1 key w.returned
            ∙ ap (inserted (laws.now w.tx) key _) sees,
      )

  stored_done :
      (task : Task) (s : App q r a) (t : Task) (key : ℤ)
      → (with_transaction q (λ tx. create q tx task) s.db).0 ≡ ok key
      → let s' = record s { db = (with_transaction q (λ tx. create q tx task) s.db).1 } in
        let x =
          (do
            u ← publish_task q r a conn is_print (record task { id = key })
            pure (record task { id = key }))
            s' in
        x.0 ≡ ok t → Created task s t x.1 × Sent s.broker t
  stored_done task s t key done h =
      let s' = record s { db = (with_transaction q (λ tx. create q tx task) s.db).1 } in
      let t' = record task { id = key } in
      elim (Outcome-cases (publish_task q r a conn is_print t' s').0) [
        | inl (u, sent) ↦
            let (time, fresh, stored) = create_committed task s.db key done in
            let sent' = publish_task-Sent t' s' sent in
            let e : t' ≡ t = ok-injective (rw sent at h) in
            let its : Sent s.broker t = subst (Sent s.broker) e sent' in
            (
              record {
                key = key;
                time = time;
                identified = sym e;
                fresh = fresh;
                stored = rw sent (ap committed (publish_task-db t' s') ∙ stored);
                channel = its.channel;
                at_publish = (create_channel a conn s.broker).1;
                published = its.published;
              },
              its,
            )
        | inr (inl (e, failed)) ↦ absurd (cc (rw failed at h))
        | inr (inr (p, failed)) ↦ absurd (cc (rw failed at h))
      ]

  -- When CreateTask reports no error, the task's row is committed under a new identity with the
  -- user, type and status of the task, and the broker has taken its message on a channel that it
  -- opened.
  pub create_task_done :
      (task : Task) (s : App q r a) (t : Task)
      → (create_task q r a conn is_print task s).0 ≡ ok t
      → Created task s t (create_task q r a conn is_print task s).1 × Sent s.broker t
  unfolding create_task
  create_task_done task s t h =
      elim (Bool-cases ((task.user_id =ℤ pos 0) || str_eq task.task_type "")) [
        | inl invalid ↦ absurd (cc (rw invalid at h))
        | inr valid ↦ elim (Outcome-cases (with_transaction q (λ tx. create q tx task) s.db).0) [
          | inl (key, committed_key) ↦
              rw (valid, committed_key)
                (stored_done task s t key committed_key (rw (valid, committed_key) at h))
          | inr (inl (e, failed)) ↦ absurd (cc (rw (valid, failed) at h))
          | inr (inr (p, failed)) ↦ absurd (cc (rw (valid, failed) at h))
        ]
      ]

  -- When the channel for the message cannot be opened, CreateTask reports that error for a task
  -- whose row it has committed: the row stays, and no message is sent.
  pub create_task_orphaned :
      (task : Task) (s : App q r a) (key : ℤ) (e : Error)
      → ((task.user_id =ℤ pos 0) || str_eq task.task_type "") ≡ false
      → (with_transaction q (λ tx. create q tx task) s.db).0 ≡ ok key
      → (create_channel a conn s.broker).0 ≡ err e
      → ((create_task q r a conn is_print task s).0 ≡ err e)
        × ((time : ℕ) × (committed (create_task q r a conn is_print task s).1.db
              ≡ inserted time key
                  (insert_task task.user_id task.task_type task.status)
                  (committed s.db)))
        × ((create_task q r a conn is_print task s).1.broker ≡ (create_channel a conn s.broker).1)
  unfolding create_task publish_task
  create_task_orphaned task s key e valid done failed =
      let (time, fresh, stored) = create_committed task s.db key done in
      (
        rw (valid, done, failed) refl,
        (time, rw (valid, done, failed) stored),
        rw (valid, done, failed) refl,
      )

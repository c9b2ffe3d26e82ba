-- ===== src/Worker/Start/Settles.antt =====
-- What StartWorker of internal/worker/worker.go does with the deliveries that it consumes.
use mathlib.Core.Path.{subst}
use async_task_orchestrator.Prelude.{
  ℕ, String, false, ◌≡◌, refl, inl, inr, Option, List, [], ◌∷◌, Text,
}
use async_task_orchestrator.Go.{Outcome, Outcome-cases, ok, panic}
use async_task_orchestrator.Sql.{Database}
use async_task_orchestrator.Utils.Calm.{Calm, CalmDatabase}
use async_task_orchestrator.Queue.Message.{Delivery}
use async_task_orchestrator.Queue.Channel.{Channel}
use async_task_orchestrator.Queue.Connect.{Amqp}
use async_task_orchestrator.Task.Model.{TaskPayload}
use async_task_orchestrator.Worker.Loop.{Call, World, handle_delivery, run_worker}
use async_task_orchestrator.Worker.Settle.{CalmChannel, Settled, handle_delivery_settles}
use async_task_orchestrator.Worker.Start.{
  Consumer, channel_on, Process, on_amqp, world_of, deferring, consume_all, start_worker,
}

-- The calls between `before` and `now` settle the deliveries in their order, each one once.
pub data SettledAll : List Delivery → List Call → List Call → Type 0 where
  none_left : (calls : List Call) → SettledAll [] calls calls
  settled :
      {msg : Delivery} {msgs : List Delivery} {before between now : List Call}
      → Settled msg before between
      → SettledAll msgs between now
      → SettledAll (msg ∷ msgs) before now

module _ (q : Database) (calm : CalmDatabase q) where
  -- If no call panics, the loop of a worker ends when the deliveries do, whatever calls fail, and
  -- it has settled them all, in their order.
  pub run_worker_settles :
      (c : Channel) (calm_channel : CalmChannel c) (unmarshal : Text → Option TaskPayload) (id : ℕ)
      (msgs : List Delivery) (w : World q c)
      → ((run_worker q c unmarshal id msgs w).0 ≡ ok tt)
        × SettledAll msgs w.calls (run_worker q c unmarshal id msgs w).1.calls
  unfolding run_worker
  run_worker_settles c calm_channel unmarshal id [] w = (refl, none_left w.calls)
  run_worker_settles c calm_channel unmarshal id (msg ∷ msgs) w =
      let (done, here) = handle_delivery_settles q c calm calm_channel unmarshal id msg w in
      let (rest, later) =
        run_worker_settles c calm_channel unmarshal id msgs
          (handle_delivery q c unmarshal id msg w).1 in
      (rw done rest, rw done (settled here later))

  module _ {S : Type 0} (a : Amqp S) (k : Consumer S a) where
    -- The deliveries that a worker gets: it opened a channel, then limited it to one delivery that
    -- is not settled, and then consumed task_queue on it, with acknowledgements.
    pub record Consuming (conn : a.Connection) (s : S) (msgs : List Delivery) : Type 0 where
      pub ch : a.Ch
      pub opened : (a.channel conn s).0 ≡ ok ch
      pub limited : (k.qos ch 1 0 false (a.channel conn s).1).0 ≡ ok tt
      pub consumed :
          (k.consume ch "task_queue" "" false false false false
            (k.qos ch 1 0 false (a.channel conn s).1).1).0
          ≡ ok msgs

    pub data WorkerEnds (conn : a.Connection) (s : Process q a k)
        : Outcome (Unit {0}) × Process q a k → Type 0 where
      fatal :
          {p : String} {t : Process q a k}
          → t.calls ≡ s.calls
          → t.db ≡ s.db
          → WorkerEnds conn s (panic p, t)
      served :
          {msgs : List Delivery} {t : Process q a k}
          → Consuming conn s.amqp msgs
          → SettledAll msgs s.calls t.calls
          → WorkerEnds conn s (ok tt, t)

    -- The loop and the deferred ch.Close(), which may fail.
    deferred-served :
        (unmarshal : Text → Option TaskPayload)
        → ((ch : a.Ch) → CalmChannel (channel_on a k ch))
        → ((ch : a.Ch) → Calm (a.close ch))
        → (conn : a.Connection) (id : ℕ) (s t : Process q a k) (ch : a.Ch) (msgs : List Delivery)
        → Consuming conn s.amqp msgs
        → t.calls ≡ s.calls
        → WorkerEnds conn s (
            deferring q a k (on_amqp q a k (a.close ch)) (consume_all q a k unmarshal ch id msgs) t)
    unfolding consume_all
    deferred-served unmarshal calm_channel calm_close conn id s t ch msgs consuming same =
        let (done, all) =
          run_worker_settles (channel_on a k ch) (calm_channel ch) unmarshal id msgs
            (world_of q a k ch t) in
        let w = (run_worker q (channel_on a k ch) unmarshal id msgs (world_of q a k ch t)).1 in
        let ends = subst (λ cs. SettledAll msgs cs w.calls) same all in
        elim (Outcome-cases (a.close ch w.chan).0) [
          | inl (u, closed) ↦ rw (closed, done) (served consuming ends)
          | inr (inl (e, failed)) ↦ rw (failed, done) (served consuming ends)
          | inr (inr (p, panicked)) ↦ absurd (calm_close ch w.chan p panicked)
        ]

    -- If no call on the database, on the channel or by ch.Close panics, StartWorker ends in one of
    -- two ways: before any delivery, with a fatal error, or when its deliveries end, with every
    -- one of them settled, in their order; it then has them from a consumer of task_queue with
    -- acknowledgements, on a channel that it had first limited to one delivery at a time.
    pub start_worker_settles :
        (unmarshal : Text → Option TaskPayload)
        → ((ch : a.Ch) → CalmChannel (channel_on a k ch))
        → ((ch : a.Ch) → Calm (a.close ch))
        → (conn : a.Connection) (id : ℕ) (s : Process q a k)
        → WorkerEnds conn s (start_worker q a k unmarshal conn id s)
    unfolding start_worker consume_all
    start_worker_settles unmarshal calm_channel calm_close conn id s =
        elim (Outcome-cases (a.channel conn s.amqp).0) [
          | inl (ch, opened) ↦
              let s1 = (a.channel conn s.amqp).1 in
              elim (Outcome-cases (k.qos ch 1 0 false s1).0) [
                | inl (u, limited) ↦
                    let s2 = (k.qos ch 1 0 false s1).1 in
                    let c = k.consume ch "task_queue" "" false false false false s2 in
                    elim (Outcome-cases c.0) [
                      | inl (msgs, consumed) ↦
                          rw (opened, limited, consumed)
                            (deferred-served unmarshal calm_channel calm_close conn id s
                              (record s { amqp = c.1 }) ch msgs
                              (record {
                                ch = ch;
                                opened = opened;
                                limited = limited;
                                consumed = consumed;
                              })
                              refl)
                      | inr (inl (e, failed)) ↦ rw (opened, limited, failed) (fatal refl refl)
                      | inr (inr (p, failed)) ↦ rw (opened, limited, failed) (fatal refl refl)
                    ]
                | inr (inl (e, failed)) ↦ rw (opened, failed) (fatal refl refl)
                | inr (inr (p, failed)) ↦ rw (opened, failed) (fatal refl refl)
              ]
          | inr (inl (e, failed)) ↦ rw failed (fatal refl refl)
          | inr (inr (p, failed)) ↦ rw failed (fatal refl refl)
        ]

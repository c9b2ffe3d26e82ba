-- ===== src/Worker/Pool/Results.antt =====
-- What the acknowledged deliveries of the pool of internal/worker/worker.go have done.
use mathlib.Core.List.{Memᴰ}
use async_task_orchestrator.Prelude.{
  ℕ, Bool, true, ◌≡◌, ap, ◌∙◌, Option, List, [], ◌∷◌, ◌++◌, codes, Text, All, All-map, All-Mem,
}
use async_task_orchestrator.Fmt.RoundTrip.{IsInt}
use async_task_orchestrator.Sql.{Database, Laws}
use async_task_orchestrator.Sql.Tables.{Task}
use async_task_orchestrator.Utils.Calm.{CalmDatabase}
use async_task_orchestrator.Cache.{RedisClient}
use async_task_orchestrator.Queue.Message.{Delivery, Publishing}
use async_task_orchestrator.Queue.Channel.{Channel}
use async_task_orchestrator.Queue.Connect.{Amqp}
use async_task_orchestrator.Task.Model.{TaskPayload}
use async_task_orchestrator.Task.Service.{task_message}
use async_task_orchestrator.Json.Payload.{unmarshal_payload}
use async_task_orchestrator.Json.Quotes.{all_carried}
use async_task_orchestrator.Worker.Proc.{handle_task}
use async_task_orchestrator.Worker.Loop.{Call, acked, World, handle_delivery}
use async_task_orchestrator.Worker.Settle.{CalmChannel}
use async_task_orchestrator.Worker.Done.{Finished}
use async_task_orchestrator.Worker.Messages.{payload_of, message-Finished}
use async_task_orchestrator.Worker.Pool.{
  Pool, Step, accepts, delivers, handles, disconnects, Reach, start, later,
}
use async_task_orchestrator.Worker.Pool.Effects.{Effect-All, handle_delivery-Effect}
use async_task_orchestrator.Worker.Pool.Origins.{Reach-Origins}

module _ (q : Database) (c : Channel) (unmarshal : Text → Option TaskPayload) where
  -- A run of the workers, which ends in a state of the pool.
  pub record Run : Type 0 where
    pub pool : Pool
    pub reach : Reach q c unmarshal pool

  abbrev pub run : {s : Pool} → Reach q c unmarshal s → Run
  run {s = s} reach = record { pool = s; reach = reach }

  -- The first run is a beginning of the second: the second goes on from where the first ends.
  pub data Begins (first : Run) : Run → Type 0 where
    here : Begins first first
    beyond :
        {s t : Pool} (reach : Reach q c unmarshal s) (step : Step q c unmarshal s t)
        → Begins first (run reach)
        → Begins first (run (later reach step))

  -- This run has come through a state of the pool in which a worker had the delivery and handled
  -- it, in a round that only acknowledged it.
  pub record Round {s : Pool} (reach : Reach q c unmarshal s) (d : Delivery) : Type 0 where
    pub pool : Pool
    pub until : Reach q c unmarshal pool
    pub left : List (ℕ × Delivery)
    pub right : List (ℕ × Delivery)
    pub worker_id : ℕ
    pub before : World q c
    pub calls : List Call
    pub copied : Bool
    pub settled : Bool
    pub had : pool.taken ≡ left ++ (worker_id, d) ∷ right
    pub handled : (handle_delivery q c unmarshal worker_id d before).1.calls ≡ before.calls ++ calls
    pub only_acked : calls ≡ acked d.tag ∷ []
    pub in_this_run :
        Begins
          (run
            (later until (handles left right worker_id d before calls copied settled had handled)))
          (run reach)

  Round-later :
      (s t : Pool) (reach : Reach q c unmarshal s) (step : Step q c unmarshal s t) (d : Delivery)
      → Round reach d
      → Round (later reach step) d
  Round-later s t reach step d h = record {
    pool = h.pool;
    until = h.until;
    left = h.left;
    right = h.right;
    worker_id = h.worker_id;
    before = h.before;
    calls = h.calls;
    copied = h.copied;
    settled = h.settled;
    had = h.had;
    handled = h.handled;
    only_acked = h.only_acked;
    in_this_run = beyond reach step h.in_this_run;
  }

module _ (q : Database) (c : Channel) (calm : CalmDatabase q) (calm_channel : CalmChannel c) where
  module _ (unmarshal : Text → Option TaskPayload) where
    Reach-Round :
        (s : Pool) (reach : Reach q c unmarshal s) → All (Round q c unmarshal reach) s.finished
    Reach-Round s start = tt
    Reach-Round s (later {s = s'} reach (accepts p e)) =
        All-map (Round q c unmarshal reach) (Round q c unmarshal (later reach (accepts p e)))
          (Round-later q c unmarshal s' s reach (accepts p e)) s'.finished (Reach-Round s' reach)
    Reach-Round s (later {s = s'} reach (delivers before after p i tag e w free)) =
        All-map (Round q c unmarshal reach)
          (Round q c unmarshal (later reach (delivers before after p i tag e w free)))
          (Round-later q c unmarshal s' s reach (delivers before after p i tag e w free))
          s'.finished (Reach-Round s' reach)
    Reach-Round s (later {s = s'} reach (disconnects before after i d e)) =
        All-map (Round q c unmarshal reach)
          (Round q c unmarshal (later reach (disconnects before after i d e)))
          (Round-later q c unmarshal s' s reach (disconnects before after i d e)) s'.finished
          (Reach-Round s' reach)
    Reach-Round s (later {s = s'} reach (handles before after i d w calls copied settled e h)) =
        let s'' = record s' { taken = before ++ after } in
        let step : Step q c unmarshal s' s = handles before after i d w calls copied settled e h in
        Effect-All (Round q c unmarshal (later reach step)) d calls s'' s
          (handle_delivery-Effect q c calm calm_channel unmarshal i d w calls copied settled s'' h)
          (λ only. record {
            pool = s';
            until = reach;
            left = before;
            right = after;
            worker_id = i;
            before = w;
            calls = calls;
            copied = copied;
            settled = settled;
            had = e;
            handled = h;
            only_acked = only;
            in_this_run = here;
          })
          (All-map (Round q c unmarshal reach) (Round q c unmarshal (later reach step))
            (Round-later q c unmarshal s' s reach step) s'.finished (Reach-Round s' reach))

  module _ (r : RedisClient) {B : Type 0} (a : Amqp B) (is_print : ℕ → Bool) (laws : Laws q) where
    open laws use {committed}

    -- The message was sent for a task by the service, and the worker can read its type.
    pub record SentFor (p : Publishing) : Type 0 where
      pub task : Task
      pub is_id : IsInt task.id
      pub is_user_id : IsInt task.user_id
      pub readable : all_carried is_print (codes task.task_type) ≡ true
      pub same_body : p.body ≡ (task_message q r a is_print task).body

    -- The delivery is of a message of the API's, sent for a task; in this run a worker had it, and
    -- in its round, which only acknowledged the delivery, it has finished the row of that task.
    pub record TaskFinished {s : Pool} (reach : Reach q c unmarshal_payload s) (d : Delivery)
        : Type 0 where
      pub message : Publishing
      pub is_sent : Memᴰ message s.accepted
      pub sent_for : SentFor message
      pub round : Round q c unmarshal_payload reach d
      pub finished :
          Finished sent_for.task.id
            (handle_task (payload_of sent_for.task) round.worker_id)
            (committed round.before.db).tasks
            (committed
              (handle_delivery q c unmarshal_payload round.worker_id d round.before).1.db).tasks

    -- If no call panics, and the API has sent only messages of tasks whose types the workers can
    -- read, with identities and users of 64 bits, then in every run of the workers, in whatever
    -- order they did what, every delivery that was acknowledged with no copy sent is of a message
    -- that the API sent for some task; the run has come through a round of a worker that had this
    -- delivery and only acknowledged it, and that round has finished the row of the task.
    pub Reach-TaskFinished :
        (s : Pool) (d : Delivery) (reach : Reach q c unmarshal_payload s)
        → All SentFor s.accepted
        → Memᴰ d s.finished
        → TaskFinished reach d
    Reach-TaskFinished s d reach sent m =
        let round =
          All-Mem (Round q c unmarshal_payload reach) s.finished d
            (Reach-Round unmarshal_payload s reach) m in
        let known =
          All-Mem _ s.finished d (Reach-Origins q c calm calm_channel unmarshal_payload s reach).2
            m in
        let for = All-Mem SentFor s.accepted known.origin sent known.is_sent in
        let w = round.before in
        record {
          message = known.origin;
          is_sent = known.is_sent;
          sent_for = for;
          round = round;
          finished =
              message-Finished q r a is_print c calm calm_channel laws for.task round.worker_id d w
                for.is_id for.is_user_id for.readable (known.same ∙ for.same_body)
                (round.handled ∙ ap (λ cs. w.calls ++ cs) round.only_acked);
        }

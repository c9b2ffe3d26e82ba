-- ===== src/Worker/Pool.antt =====
-- The workers of cmd/worker/main.go on one queue, interleaved in any order. The broker is not part
-- of the repository: what it does with messages is documented, and stands in the steps.
pub mod Effects
pub mod Conserved
pub mod Origins
pub mod Progress
pub mod Results
pub mod Spec
mod Tests
use async_task_orchestrator.Prelude.{
  ℕ, zero, suc, ◌+◌, ◌≤◌, ◌==◌, Bool, true, false, ◌||◌, ◌&&◌, ◌≡◌, Option, none, some, List, [],
  ◌∷◌, ◌++◌, if◌then◌else◌, Text,
}
use async_task_orchestrator.Sql.{Database}
use async_task_orchestrator.Queue.Message.{Delivery, Publishing}
use async_task_orchestrator.Queue.Channel.{Channel}
use async_task_orchestrator.Task.Model.{TaskPayload}
use async_task_orchestrator.Worker.Loop.{Call, acked, nacked, published, World, handle_delivery}

-- A message as the broker delivers it, and a delivery as the broker takes it back.
abbrev pub delivered : ℕ → Publishing → Delivery
delivered tag p = record {
  tag = tag;
  routing_key = p.routing_key;
  content_type = p.content_type;
  body = p.body;
  headers = p.headers;
}

abbrev pub returned : Delivery → Publishing
returned d = record {
  routing_key = d.routing_key;
  content_type = d.content_type;
  body = d.body;
  headers = d.headers;
}

-- The messages that wait, the deliveries that are not settled, each with its worker, the deliveries
-- that were acknowledged with no copy sent, and those that were rejected for good; `accepted` are
-- the messages that the API has sent so far.
pub record Pool : Type 0 where
  pub ready : List Publishing
  pub taken : List (ℕ × Delivery)
  pub finished : List Delivery
  pub dropped : List Delivery
  pub accepted : List Publishing

-- The worker has no delivery that is not settled.
abbrev pub is_free : ℕ → List (ℕ × Delivery) → Bool
is_free i [] = true
is_free i ((j, d) ∷ ds) = if j == i then false else is_free i ds

-- for i := 1; i <= 3; i++ { go worker.StartWorker(conn, db, repo, i) }
unfoldable pub worker_ids : List ℕ
worker_ids = 1 ∷ 2 ∷ 3 ∷ []

unfoldable pub is_worker : ℕ → List ℕ → Bool
is_worker i [] = false
is_worker i (j ∷ js) = (j == i) || is_worker i js

-- The copies that the broker has of a worker's calls. Frames of one channel arrive in order: a copy
-- is there if `copied` says that it arrived, or if its publish returned nil and a settlement that
-- was sent after it arrived, which `settled` says. A publish that returned an error has sent a copy
-- that arrived, or none.
unfoldable pub copies_of : Bool → Bool → List Call → List Publishing
copies_of copied settled [] = []
copies_of copied settled (published p sent ∷ calls) =
    let rest = copies_of copied settled calls in
    if copied || (sent && settled) then p ∷ rest else rest
copies_of copied settled (acked tag ∷ calls) = copies_of copied false calls
copies_of copied settled (nacked tag requeue ∷ calls) = copies_of copied false calls

-- The worker has tried to publish a copy.
unfoldable pub tried : List Call → Bool
tried [] = false
tried (published p sent ∷ calls) = true
tried (acked tag ∷ calls) = tried calls
tried (nacked tag requeue ∷ calls) = tried calls

pub data Verdict : Type 0 where
  accept : Verdict
  reject : Bool → Verdict
  open_still : Verdict

-- The first settlement of the calls, which counts if it has the tag of the delivery.
unfoldable pub verdict : ℕ → List Call → Verdict
verdict tag [] = open_still
verdict tag (published p sent ∷ calls) = verdict tag calls
verdict tag (acked t ∷ calls) = if t == tag then accept else open_still
verdict tag (nacked t requeue ∷ calls) = if t == tag then reject requeue else open_still

unfoldable pub put : Pool → List Publishing → Pool
put s [] = s
put s (p ∷ ps) = record s { ready = s.ready ++ p ∷ ps }

-- A delivery that was acknowledged is gone: if a copy was tried, only what arrived of the copies is
-- left of it. One that is not settled goes back to the queue when the channel closes.
unfoldable pub conclude : Delivery → Verdict → Bool → Pool → Pool
conclude d accept true s = s
conclude d accept false s = record s { finished = d ∷ s.finished }
conclude d (reject false) t s = record s { dropped = d ∷ s.dropped }
conclude d (reject true) t s = record s { ready = returned d ∷ s.ready }
conclude d open_still t s = record s { ready = returned d ∷ s.ready }

-- What the broker does with the calls of a worker for its delivery `d`, which `s` no longer has
-- under `taken`: whether the copies arrived, and whether the settlement did.
unfoldable pub settle : Delivery → Bool → Bool → List Call → Pool → Pool
unfolding copies_of tried verdict put conclude
settle d copied settled calls s =
    conclude d (if settled then verdict d.tag calls else open_still) (tried calls)
      (put s (copies_of copied settled calls))

abbrev pub empty : Pool
empty = record { ready = []; taken = []; finished = []; dropped = []; accepted = [] }

module _ (q : Database) (c : Channel) (unmarshal : Text → Option TaskPayload) where
  pub data Step (s : Pool) : Pool → Type 0 where
    -- The API sends a message, which has no headers.
    accepts :
        (p : Publishing)
        → p.headers ≡ none
        → Step s (record s { ready = s.ready ++ p ∷ []; accepted = p ∷ s.accepted })
    -- ch.Qos(1, 0, false): a worker gets a message only when it has none that is not settled.
    delivers :
        (before after : List Publishing) (p : Publishing) (i tag : ℕ)
        → s.ready ≡ before ++ p ∷ after
        → is_worker i worker_ids ≡ true
        → is_free i s.taken ≡ true
        → Step s (record s { ready = before ++ after; taken = (i, delivered tag p) ∷ s.taken })
    -- A round of the worker's loop. The database and the channel may answer anything, so that what
    -- other workers write meanwhile is part of the answers.
    handles :
        (before after : List (ℕ × Delivery)) (i : ℕ) (d : Delivery) (w : World q c)
        (calls : List Call) (copied settled : Bool)
        → s.taken ≡ before ++ (i, d) ∷ after
        → (handle_delivery q c unmarshal i d w).1.calls ≡ w.calls ++ calls
        → Step s (settle d copied settled calls (record s { taken = before ++ after }))
    -- The connection of a worker is lost: its delivery goes back to the queue.
    disconnects :
        (before after : List (ℕ × Delivery)) (i : ℕ) (d : Delivery)
        → s.taken ≡ before ++ (i, d) ∷ after
        → Step s (record s { ready = returned d ∷ s.ready; taken = before ++ after })

  pub data Reach : Pool → Type 0 where
    start : Reach empty
    later : {s t : Pool} → Reach s → Step s t → Reach t

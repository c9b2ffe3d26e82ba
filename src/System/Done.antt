-- ===== src/System/Done.antt =====
-- From the answer 201 of `POST /tasks` to the row that a worker has finished.
mod Tests
use mathlib.Core.Option
use async_task_orchestrator.Prelude.{
  some-injective, Bool, Bool-cases, inl, inr, ℕ, ℤ, =ℤ_iff, String, ◌≡◌, refl, ap, ◌∙◌, arith,
  Option, none, some, List, [], ◌∷◌, ◌++◌, codes, true, Text, sym,
}
use async_task_orchestrator.Go.{Error}
use async_task_orchestrator.Fmt.RoundTrip.{IsInt}
use async_task_orchestrator.Sql.{Database, Laws}
use async_task_orchestrator.Sql.Tables.{Task, Content, inserted, find_task}
use async_task_orchestrator.Utils.Calm.{CalmDatabase}
use async_task_orchestrator.Cache.{RedisClient}
use async_task_orchestrator.Http.{Context, Response}
use async_task_orchestrator.Queue.Message.{Delivery}
use async_task_orchestrator.Queue.Channel.{Channel}
use async_task_orchestrator.Queue.Connect.{Amqp}
use async_task_orchestrator.Handler.Setup.{Libraries}
use async_task_orchestrator.Json.Payload.{unmarshal_payload}
use async_task_orchestrator.Json.Quotes.{all_carried}
use async_task_orchestrator.Task.Service.{App, task_message}
use async_task_orchestrator.Task.Caching.{RedisLaws, JsonLaws}
use async_task_orchestrator.Task.Access.{Accepted}
use async_task_orchestrator.Worker.Proc.{handle_task}
use mathlib.Core.Path.{subst}
use async_task_orchestrator.Task.Model.{TaskPayload}
use async_task_orchestrator.Worker.Loop.{acked, World, handle_delivery}
use async_task_orchestrator.Worker.Settle.{CalmChannel}
use async_task_orchestrator.Worker.Done.{acknowledged-Finished, Finished, finished_row}
use async_task_orchestrator.Worker.Progress.{Commits, handle_delivery-acked}
use async_task_orchestrator.Worker.Messages.{payload_of, decoded, message-Finished}
use async_task_orchestrator.System.Owners.{
  NewRow, OfTask, NewRow-OfTask, OfTask-kept, Owned, row-Owned,
}
use async_task_orchestrator.System.History.{History, Later, after_round}
use async_task_orchestrator.System.Invariant.{History-Fine, Later-Carried}

-- The status that a worker gives to a task with that result.
abbrev pub result_status : Option Error → String
result_status none = "SUCCESS"
result_status (some e) = "FAILED"

-- The task has a row of that user and type, with that status.
pub record Row (c : Content) (id user_id : ℤ) (task_type status : String) : Type 0 where
  pub row : Task
  pub stored : find_task id c.tasks ≡ some row
  pub same_user : row.user_id ≡ user_id
  pub same_type : row.task_type ≡ task_type
  pub same_status : row.status ≡ status

finished_row-Row :
    (r : Option Error) (time : ℕ) (c : Content) (id : ℤ) (t : Task)
    → find_task id c.tasks ≡ some (finished_row r time t)
    → Row c id t.user_id t.task_type (result_status r)
finished_row-Row none time c id t h = record {
  row = finished_row none time t;
  stored = h;
  same_user = refl;
  same_type = refl;
  same_status = refl;
}
finished_row-Row (some e) time c id t h = record {
  row = finished_row (some e) time t;
  stored = h;
  same_user = refl;
  same_type = refl;
  same_status = refl;
}

module _ (q : Database) (r : RedisClient) {B : Type 0} (a : Amqp B) (is_print : ℕ → Bool)
    (c : Channel) (laws : Laws q) (calm : CalmDatabase q) (calm_channel : CalmChannel c) where
  open laws use {committed}

  pub read_task :
      (t : Task) (d : Delivery) (payload : TaskPayload)
      → IsInt t.id
      → IsInt t.user_id
      → d.body ≡ (task_message q r a is_print t).body
      → unmarshal_payload d.body ≡ some payload
      → payload ≡ payload_of t
  read_task t d payload h k same read =
      let e = sym read ∙ ap unmarshal_payload same ∙ decoded q r a is_print t h k in
      elim (Bool-cases (all_carried is_print (codes t.task_type))) [
        | inl carried ↦ some-injective (rw carried at e)
        | inr other ↦ absurd (cc (rw other at e))
      ]

  -- After a round that only acknowledged the message of a task, a row of the task is finished.
  pub acked-Row :
      (t : Task) (i : ℕ) (d : Delivery) (w : World q c)
      → IsInt t.id
      → IsInt t.user_id
      → d.body ≡ (task_message q r a is_print t).body
      → (handle_delivery q c unmarshal_payload i d w).1.calls ≡ w.calls ++ acked d.tag ∷ []
      → OfTask t (committed w.db)
      → Row
          (committed (handle_delivery q c unmarshal_payload i d w).1.db)
          t.id
          t.user_id
          t.task_type
          (result_status (handle_task (payload_of t) i))
  acked-Row t i d w h k same calls o =
      let (payload, read, done) =
        acknowledged-Finished q c laws calm calm_channel unmarshal_payload i d w calls in
      let e = read_task t d payload h k same read in
      let finished =
        subst
          (λ p.
            Finished p.id (handle_task p i) (committed w.db).tasks
              (committed (handle_delivery q c unmarshal_payload i d w).1.db).tasks)
          e done in
      let end =
        finished_row-Row (handle_task (payload_of t) i) finished.time
          (committed (handle_delivery q c unmarshal_payload i d w).1.db) t.id o.owned.row
          (finished.row
            ∙ ap (Option.map (finished_row (handle_task (payload_of t) i) finished.time))
                o.owned.stored) in
      record {
        row = end.row;
        stored = end.stored;
        same_user = end.same_user ∙ o.owned.same_user ∙ o.its_user;
        same_type = end.same_type ∙ o.owned.same_type ∙ o.its_type;
        same_status = end.same_status;
      }

module _ (q : Database) (r : RedisClient) {B : Type 0} (a : Amqp B) (l : Libraries)
    (jwt_secret : Text) (conn : a.Connection) (c : Channel) (laws : Laws q)
    (redis_laws : RedisLaws r) (json_laws : JsonLaws l.json) (calm : CalmDatabase q)
    (calm_channel : CalmChannel c) where
  open laws use {committed}

  module _ (ctx : Context) (s : App q r a) (x : Response) (now : App q r a)
      (acc : Accepted q r a laws conn l.is_print l.bind_task_type ctx s x now) where
    -- If no call panics, a task was accepted in a state that the program gets to, its type is a text
    -- that `%q` and JSON carry, and its identity and user have 64 bits: whatever happens until a
    -- worker gets the message of the task, when both transactions of its round succeed, the row of
    -- the task is still that of the user of the request and of the type that was asked for, and it
    -- is SUCCESS if the work of the task reports no error, and otherwise FAILED.
    pub accepted-Row :
        (u : App q r a) (i : ℕ) (d : Delivery) (chan : c.Chan)
        → History q r a l jwt_secret conn c unmarshal_payload laws redis_laws now
        → Later q r a l jwt_secret conn c unmarshal_payload laws redis_laws now u
        → IsInt acc.task.id
        → IsInt acc.task.user_id
        → all_carried l.is_print (codes acc.task.task_type) ≡ true
        → d.body ≡ (task_message q r a l.is_print acc.task).body
        → Commits q c i (payload_of acc.task) u.db
        → Row
            (committed (after_round q r a l jwt_secret conn c unmarshal_payload i d chan u).db)
            acc.task.id
            acc.user_id
            acc.task_type
            (result_status (handle_task (payload_of acc.task) i))
    accepted-Row u i d chan history later h k carried same commits =
        let new = acc.created in
        let fine =
          History-Fine q r a l jwt_secret conn c unmarshal_payload laws redis_laws json_laws now
            history in
        let of_task : OfTask acc.task (committed now.db) =
          NewRow-OfTask acc.task (committed s.db) (committed now.db) (
            subst (λ t. NewRow t (committed s.db) (committed now.db)) (sym new.identified)
              (new.time, new.fresh, new.stored)) in
        let kept =
          (Later-Carried q r a l jwt_secret conn c unmarshal_payload laws redis_laws json_laws now u
            later fine).kept in
        let w : World q c = record { db = u.db; chan = chan; calls = [] } in
        let read : unmarshal_payload d.body ≡ some (payload_of acc.task) =
          ap unmarshal_payload same ∙ decoded q r a l.is_print acc.task h k ∙ (rw carried refl) in
        let (ended, calls) =
          handle_delivery-acked q c calm_channel unmarshal_payload i d (payload_of acc.task) w read
            commits in
        let end =
          acked-Row q r a l.is_print c laws calm calm_channel acc.task i d w h k same calls
            (OfTask-kept acc.task (committed now.db) (committed u.db) kept of_task) in
        record {
          row = end.row;
          stored = end.stored;
          same_user = end.same_user ∙ ap (λ t. t.user_id) new.identified;
          same_type = end.same_type ∙ ap (λ t. t.task_type) new.identified;
          same_status = end.same_status;
        }

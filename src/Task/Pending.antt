-- ===== src/Task/Pending.antt =====
-- The answer 201 of CreateTask of internal/task/controller.go: the row and the message of the task.
use async_task_orchestrator.Prelude.{ℕ, ℤ, String, Bool, ◌≡◌, ap, ◌∙◌, none, Text, codes, [], ◌∷◌}
use async_task_orchestrator.Go.{Outcome, ok}
use async_task_orchestrator.Sql.{Database, Laws}
use async_task_orchestrator.Sql.Tables.{insert_task, inserted, find_task}
use async_task_orchestrator.Cache.{RedisClient}
use async_task_orchestrator.Queue.Connect.{Amqp, create_channel}
use async_task_orchestrator.Http.{str, num, Context, Response}
use async_task_orchestrator.Auth.Context.{get_user_id_from_context}
use async_task_orchestrator.Task.Body.{task_body}
use async_task_orchestrator.Task.Service.{App, task_message}
use async_task_orchestrator.Task.Controller.{created_response, create_task_handler}
use async_task_orchestrator.Task.Access.{create_task_handler-Accepted}

module _ (q : Database) (r : RedisClient) {B : Type 0} (a : Amqp B) (laws : Laws q)
    (conn : a.Connection) (is_print : ℕ → Bool) (bind : Text → Outcome String) where
  open laws use {committed}

  -- The database has committed a new row, PENDING, of the user and the task type of the request,
  -- and nothing else; the broker had opened a channel and taken on it the message of that row for
  -- task_queue; and the answer is 201 with the identity of the row.
  pub record Pending (ctx : Context) (before : App q r a) (x : Response) (now : App q r a)
      : Type 0 where
    pub user_id : ℤ
    pub task_type : String
    pub key : ℤ
    pub at_time : ℕ
    pub requested : bind ctx.body ≡ ok task_type
    pub user : get_user_id_from_context ctx ≡ ok user_id
    pub fresh : find_task key (committed before.db).tasks ≡ none
    pub stored :
        committed now.db
        ≡ inserted at_time key (insert_task user_id task_type "PENDING") (committed before.db)
    pub channel : a.Ch
    pub opened : (create_channel a conn before.broker).0 ≡ ok channel
    pub published :
        (a.publish channel
          (record {
            routing_key = "task_queue";
            content_type = "application/json";
            body = task_body is_print key user_id (codes task_type);
            headers = none;
          })
          (create_channel a conn before.broker).1).0
        ≡ ok tt
    pub answer : x ≡ record {
      status = 201;
      body =
          ("task_id", num key)
          ∷ ("status", str "PENDING")
          ∷ ("message", str "Task created successfully")
          ∷ [];
    }

  -- The handler of `POST /tasks` answers 201 only when it has committed a new PENDING row of the
  -- request's task type for the user of the request, and no other change, and the broker, on a
  -- channel that it opened for this request, has taken the message of that row for task_queue; the
  -- answer has the identity of the row.
  pub create_task_handler-Pending :
      (ctx : Context) (s : App q r a) (x : Response)
      → (create_task_handler q r a conn is_print bind ctx s).0 ≡ ok x
      → x.status ≡ 201
      → Pending ctx s x (create_task_handler q r a conn is_print bind ctx s).1
  unfolding task_message
  create_task_handler-Pending ctx s x h k =
      let (acc, sent) = create_task_handler-Accepted q r a laws conn is_print bind ctx s x h k in
      let new = acc.created in
      let its = new.identified in
      record {
        user_id = acc.user_id;
        task_type = acc.task_type;
        key = new.key;
        at_time = new.time;
        requested = acc.requested;
        user = acc.user;
        fresh = new.fresh;
        stored = new.stored;
        channel = sent.channel;
        opened = sent.opened;
        published = rw its at sent.published;
        answer = acc.answer ∙ ap created_response its;
      }

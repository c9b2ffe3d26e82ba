-- ===== src/Task/Model.antt =====
-- internal/task/model.go. The struct `Task` is `Sql.Tables.Task`.
use async_task_orchestrator.Prelude.{ℤ, String, Option}

-- The body of a queue message.
pub record TaskPayload : Type 0 where
  pub id : ℤ
  pub user_id : ℤ
  pub task_type : String

pub record TaskResponse : Type 0 where
  pub id : ℤ
  pub status : String
  pub result_file : Option String
  pub error : Option String

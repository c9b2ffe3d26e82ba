-- ===== src/Sql/Tables.antt =====
-- The tables of migrations/ and the statements that internal/task/repository.go and
-- internal/user/repository.go send, as data, with the documented meaning of INSERT and UPDATE.
use async_task_orchestrator.Prelude.{
  ℕ, String, ℤ, ◌=ℤ◌, Option, none, some, List, [], ◌∷◌, ◌++◌, map, str_eq, if◌then◌else◌,
}

-- A row of `tasks`; it is also the struct that `Scan` fills.
pub record Task : Type 0 where
  pub id : ℤ
  pub user_id : ℤ
  pub task_type : String
  pub status : String
  pub result_file : Option String
  pub error_message : Option String
  pub created_at : ℕ
  pub updated_at : ℕ

-- A row of `users`.
pub record User : Type 0 where
  pub id : ℤ
  pub username : String
  pub password : String
  pub created_at : ℕ

pub record Content : Type 0 where
  pub tasks : List Task
  pub users : List User

-- One assignment of `UPDATE tasks SET …`; `updated_at_now` is `updated_at = NOW()`.
pub data TaskSet : Type 0 where
  set_status set_result_file set_error_message : String → TaskSet
  updated_at_now : TaskSet

-- `UPDATE tasks SET … WHERE id = …` and `UPDATE users SET password = … WHERE id = …`
pub data Update : Type 0 where
  update_tasks : List TaskSet → ℤ → Update
  update_password : String → ℤ → Update

-- `INSERT INTO tasks (user_id, task_type, status, created_at, updated_at) VALUES (…, NOW(), NOW())`
-- and `INSERT INTO users (username, password, created_at) VALUES (…, NOW())`, both RETURNING id
pub data Insert : Type 0 where
  insert_task : ℤ → String → String → Insert
  insert_user : String → String → Insert

unfoldable pub assign : ℕ → Task → TaskSet → Task
assign now t (set_status s) = record t { status = s }
assign now t (set_result_file s) = record t { result_file = some s }
assign now t (set_error_message s) = record t { error_message = some s }
assign now t updated_at_now = record t { updated_at = now }

unfoldable pub assign_all : ℕ → List TaskSet → Task → Task
unfolding assign
assign_all now [] t = t
assign_all now (a ∷ as') t = assign_all now as' (assign now t a)

unfoldable pub update_task_row : ℕ → List TaskSet → ℤ → Task → Task
unfolding assign_all
update_task_row now sets key t = if t.id =ℤ key then assign_all now sets t else t

unfoldable pub update_user_row : String → ℤ → User → User
update_user_row hash key u = if u.id =ℤ key then record u { password = hash } else u

-- The tables after an UPDATE at the time `now` of its transaction.
unfoldable pub updated : ℕ → Update → Content → Content
updated now (update_tasks sets key) t = record t {
  tasks = map (update_task_row now sets key) t.tasks;
}
updated now (update_password hash key) t = record t {
  users = map (update_user_row hash key) t.users;
}

-- The tables after an INSERT that was given the identity `key`.
unfoldable pub inserted : ℕ → ℤ → Insert → Content → Content
inserted now key (insert_task user_id task_type status) t = record t {
  tasks =
      t.tasks
      ++ record {
        id = key;
        user_id = user_id;
        task_type = task_type;
        status = status;
        result_file = none;
        error_message = none;
        created_at = now;
        updated_at = now;
      }
        ∷ [];
}
inserted now key (insert_user username password) t = record t {
  users =
      t.users
      ++ record { id = key; username = username; password = password; created_at = now } ∷ [];
}

-- `WHERE id = …`, `WHERE user_id = …` and `WHERE username = …`
unfoldable pub find_task : ℤ → List Task → Option Task
find_task key [] = none
find_task key (t ∷ ts) = if t.id =ℤ key then some t else find_task key ts

unfoldable pub tasks_of : ℤ → List Task → List Task
tasks_of key [] = []
tasks_of key (t ∷ ts) = if t.user_id =ℤ key then t ∷ tasks_of key ts else tasks_of key ts

unfoldable pub find_user : ℤ → List User → Option User
find_user key [] = none
find_user key (u ∷ us) = if u.id =ℤ key then some u else find_user key us

unfoldable pub find_username : String → List User → Option User
find_username name [] = none
find_username name (u ∷ us) = if str_eq u.username name then some u else find_username name us

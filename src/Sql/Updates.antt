-- ===== src/Sql/Updates.antt =====
-- What an UPDATE of the tasks by their identity does to the rows that a SELECT finds.
use async_task_orchestrator.Prelude.{
  ◌∙◌, ℕ, ℤ, ◌=ℤ◌, =ℤ_iff, ◌≡◌, refl, arith, List, [], ◌∷◌, map, if◌then◌else◌,
}
use mathlib.Core.Option
use async_task_orchestrator.Sql.Tables.{
  Task, TaskSet, assign, assign_all, update_task_row, find_task,
}

id-assign : (now : ℕ) (t : Task) (a : TaskSet) → (assign now t a).id ≡ t.id
unfolding assign
id-assign now t a = ground arith

user-assign : (now : ℕ) (t : Task) (a : TaskSet) → (assign now t a).user_id ≡ t.user_id
unfolding assign
user-assign now t a = ground arith

pub id-assign_all : (now : ℕ) (sets : List TaskSet) (t : Task) → (assign_all now sets t).id ≡ t.id
unfolding assign_all
id-assign_all now [] t = refl
id-assign_all now (a ∷ sets) t = id-assign_all now sets (assign now t a) ∙ id-assign now t a

pub user-assign_all :
    (now : ℕ) (sets : List TaskSet) (t : Task) → (assign_all now sets t).user_id ≡ t.user_id
unfolding assign_all
user-assign_all now [] t = refl
user-assign_all now (a ∷ sets) t = user-assign_all now sets (assign now t a) ∙ user-assign now t a

-- The row with the identity is assigned to, and every other row is found as it was.
pub find_task-update :
    (now : ℕ) (sets : List TaskSet) (key j : ℤ) (ts : List Task)
    → find_task j (map (update_task_row now sets key) ts)
      ≡ (if key =ℤ j then Option.map (assign_all now sets) (find_task j ts) else find_task j ts)
unfolding find_task update_task_row
find_task-update now sets key j [] = ground arith
find_task-update now sets key j (t ∷ ts) = ground (
  arith,
  find_task-update now sets key j ts,
  id-assign_all now sets t,
  =ℤ_iff t.id key,
  =ℤ_iff t.id j,
  =ℤ_iff key j,
)

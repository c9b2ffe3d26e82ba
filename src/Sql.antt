-- ===== src/Sql.antt =====
-- The database as the program sees it through database/sql: PostgreSQL and its driver are not part
-- of the repository, so their calls are parameters, with what the code relies on as laws.
pub mod Tables
pub mod Updates
use async_task_orchestrator.Sql.Tables.{
  insert_task, Task, User, Content, Update, Insert, insert_user, updated, inserted, find_task,
  tasks_of, find_user, find_username,
}
use async_task_orchestrator.Prelude.{
  ℕ, ℤ, String, ◌≡◌, ◌≢◌, ◌⊎◌, Option, none, some, List, [], ◌∷◌, map, All,
}
use async_task_orchestrator.Go.{Error, Outcome, ok, err, no_rows, M}

-- What `rows.Next`, `rows.Scan` and `rows.Err` yield, in their order.
pub record Rows : Type 0 where
  pub scans : List (Outcome Task)
  pub final : Option Error

-- Each row of the answer, in order: it was scanned, or its scan failed.
abbrev pub Scans : List (Outcome Task) → List Task → Type 0
Scans [] [] = Unit
Scans (ok t ∷ scans) (t' ∷ ts) = (t ≡ t') × Scans scans ts
Scans (err e ∷ scans) (t' ∷ ts) = Scans scans ts
Scans _ _ = ⊥

pub record Database : Type 1 where
  -- *sql.DB with the server behind it, and *sql.Tx
  pub Db : Type 0
  pub Tx : Type 0
  pub begin : M Db Tx
  pub commit : Tx → M Db (Unit {0})
  pub rollback : Tx → M Db (Unit {0})
  -- tx.Exec with its RowsAffected, and tx.QueryRow(…).Scan(&id)
  pub exec : Tx → Update → M Db ℕ
  pub insert : Tx → Insert → M Db ℤ
  -- db.QueryRow(…).Scan(…) and db.Query
  pub task_by_id : ℤ → M Db Task
  pub tasks_by_user : ℤ → M Db Rows
  pub user_by_id : ℤ → M Db User
  pub user_by_username : String → M Db User

module _ (q : Database) where
  -- The committed tables, what a transaction sees, and its NOW(). The laws are about a span in
  -- which no other session writes.
  pub record Laws : Type 0 where
    pub committed : q.Db → Content
    pub seen : q.Tx → q.Db → Content
    pub now : q.Tx → ℕ
    pub begin_keeps : (d : q.Db) → committed (q.begin d).1 ≡ committed d
    pub begin_sees :
        (d : q.Db) (tx : q.Tx) → (q.begin d).0 ≡ ok tx → seen tx (q.begin d).1 ≡ committed d
    pub exec_keeps : (tx : q.Tx) (u : Update) (d : q.Db) → committed (q.exec tx u d).1 ≡ committed d
    pub exec_sees :
        (tx : q.Tx) (u : Update) (d : q.Db) (n : ℕ)
        → (q.exec tx u d).0 ≡ ok n
        → seen tx (q.exec tx u d).1 ≡ updated (now tx) u (seen tx d)
    pub insert_keeps :
        (tx : q.Tx) (i : Insert) (d : q.Db) → committed (q.insert tx i d).1 ≡ committed d
    pub insert_sees :
        (tx : q.Tx) (i : Insert) (d : q.Db) (key : ℤ)
        → (q.insert tx i d).0 ≡ ok key
        → seen tx (q.insert tx i d).1 ≡ inserted (now tx) key i (seen tx d)
    pub rollback_keeps : (tx : q.Tx) (d : q.Db) → committed (q.rollback tx d).1 ≡ committed d
    pub commit_writes :
        (tx : q.Tx) (d : q.Db) → (q.commit tx d).0 ≡ ok tt → committed (q.commit tx d).1 ≡ seen tx d
    -- A COMMIT whose answer was lost may have taken place.
    pub commit_or_not :
        (tx : q.Tx) (d : q.Db)
        → (committed (q.commit tx d).1 ≡ committed d) ⊎ (committed (q.commit tx d).1 ≡ seen tx d)
    -- Queries write nothing, and find the committed rows.
    pub task_by_id_keeps : (key : ℤ) (d : q.Db) → committed (q.task_by_id key d).1 ≡ committed d
    pub task_by_id_found :
        (key : ℤ) (d : q.Db) (t : Task)
        → (q.task_by_id key d).0 ≡ ok t
        → find_task key (committed d).tasks ≡ some t
    pub task_by_id_missing :
        (key : ℤ) (d : q.Db)
        → (q.task_by_id key d).0 ≡ err no_rows
        → find_task key (committed d).tasks ≡ none
    pub tasks_by_user_keeps :
        (key : ℤ) (d : q.Db) → committed (q.tasks_by_user key d).1 ≡ committed d
    pub tasks_by_user_found :
        (key : ℤ) (d : q.Db) (r : Rows)
        → (q.tasks_by_user key d).0 ≡ ok r
        → r.final ≡ none
        → Scans r.scans (tasks_of key (committed d).tasks)
    pub user_by_id_keeps : (key : ℤ) (d : q.Db) → committed (q.user_by_id key d).1 ≡ committed d
    pub user_by_username_keeps :
        (name : String) (d : q.Db) → committed (q.user_by_username name d).1 ≡ committed d
    pub user_by_username_found :
        (name : String) (d : q.Db) (u : User)
        → (q.user_by_username name d).0 ≡ ok u
        → find_username name (committed d).users ≡ some u
    -- The identity of an inserted user is new, and so is the name, which is UNIQUE.
    pub insert_user_new :
        (tx : q.Tx) (name hash : String) (d : q.Db) (key : ℤ)
        → (q.insert tx (insert_user name hash) d).0 ≡ ok key
        → (find_username name (seen tx d).users ≡ none) × (find_user key (seen tx d).users ≡ none)
    pub insert_task_new :
        (tx : q.Tx) (user_id : ℤ) (task_type status : String) (d : q.Db) (key : ℤ)
        → (q.insert tx (insert_task user_id task_type status) d).0 ≡ ok key
        → find_task key (seen tx d).tasks ≡ none

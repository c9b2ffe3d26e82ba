-- ===== src/Samples/Memory.antt =====
-- A database in memory that meets the laws of `Sql`; its next commits can be made to fail.
use async_task_orchestrator.Prelude.{
  Bool, true, false, ℕ, ◌+◌, ℤ, pos, String, ◌≡◌, refl, arith, Option, none, some, List, [], ◌∷◌,
  map,
}
use mathlib.Core.Path.{subst, sym}
use async_task_orchestrator.Go.{new, no_rows, Outcome, ok, err}
use async_task_orchestrator.Sql.{Database, Laws, Rows, Scans}
use async_task_orchestrator.Sql.Tables.{
  Task, User, Content, Insert, insert_task, insert_user, updated, inserted, find_task, tasks_of,
  find_user, find_username,
}
use async_task_orchestrator.Utils.Calm.{CalmDatabase}

pub record Memory : Type 0 where
  pub content : Content
  pub pending : Content
  pub clock : ℕ
  -- whether each of the next commits succeeds
  pub commits : List Bool

abbrev fail_or : List Bool → Memory → Outcome (Unit {0}) × Memory
fail_or [] d = (ok tt, record d { content = d.pending })
fail_or (true ∷ rest) d = (ok tt, record d { content = d.pending; commits = rest })
fail_or (false ∷ rest) d =
    (err (new "connection lost"), record d { pending = d.content; commits = rest })

abbrev found_or {ℓ} : {A : Type ℓ} → Option A → Memory → Outcome A × Memory
found_or none d = (err no_rows, d)
found_or (some a) d = (ok a, d)

abbrev fresh_task : Option Task → Insert → ℕ → ℤ → Memory → Outcome ℤ × Memory
fresh_task none i now key d =
    (ok key, record d { pending = inserted now key i d.pending; clock = d.clock + 1 })
fresh_task (some t) i now key d = (err (new "duplicate key"), d)

abbrev fresh_user : Option User → Option User → Insert → ℕ → ℤ → Memory → Outcome ℤ × Memory
fresh_user none none i now key d =
    (ok key, record d { pending = inserted now key i d.pending; clock = d.clock + 1 })
fresh_user none (some u) i now key d = (err (new "duplicate key"), d)
fresh_user (some u) o i now key d = (err (new "duplicate key"), d)

-- The clock also numbers the new rows.
abbrev insert_row : ℕ → Insert → Memory → Outcome ℤ × Memory
insert_row now (insert_task u t s) d =
    fresh_task (find_task (pos d.clock) d.pending.tasks) (insert_task u t s) now (pos d.clock) d
insert_row now (insert_user n h) d =
    fresh_user (find_username n d.pending.users) (find_user (pos d.clock) d.pending.users)
      (insert_user n h) now (pos d.clock) d

abbrev pub memory : Database
memory = record {
  Db = Memory;
  Tx = ℕ;
  begin = λ d. (ok d.clock, record d { pending = d.content; clock = d.clock + 1 });
  commit = λ tx d. fail_or d.commits d;
  rollback = λ tx d. (ok tt, record d { pending = d.content });
  exec = λ tx u d. (ok 1, record d { pending = updated tx u d.pending });
  insert = λ tx i d. insert_row tx i d;
  task_by_id = λ key d. found_or (find_task key d.content.tasks) d;
  tasks_by_user =
      λ key d. (ok (record { scans = map ok (tasks_of key d.content.tasks); final = none }), d);
  user_by_id = λ key d. found_or (find_user key d.content.users) d;
  user_by_username = λ name d. found_or (find_username name d.content.users) d;
}

fail_or-ok :
    (n : List Bool) (d : Memory) → (fail_or n d).0 ≡ ok tt → (fail_or n d).1.content ≡ d.pending
fail_or-ok n d h = ground arith

Scans-all : (ts : List Task) → Scans (map ok ts) ts
Scans-all [] = tt
Scans-all (t ∷ ts) = (refl, Scans-all ts)

found_or-ok {ℓ} :
    {A : Type ℓ} (o : Option A) (d : Memory) (a : A) → (found_or o d).0 ≡ ok a → o ≡ some a
found_or-ok none d a h = ground arith
found_or-ok (some b) d a h = ground arith

found_or-missing {ℓ} :
    {A : Type ℓ} (o : Option A) (d : Memory) → (found_or o d).0 ≡ err no_rows → o ≡ none
found_or-missing none d h = refl
found_or-missing (some b) d h = cc

insert_row-keeps : (now : ℕ) (i : Insert) (d : Memory) → (insert_row now i d).1.content ≡ d.content
insert_row-keeps now i d = ground arith

insert_row-sees :
    (now : ℕ) (i : Insert) (d : Memory) (key : ℤ)
    → (insert_row now i d).0 ≡ ok key
    → (insert_row now i d).1.pending ≡ inserted now key i d.pending
insert_row-sees now i d key h = ground arith

rows_found : (ts : List Task) (r : Rows) → r.scans ≡ map ok ts → Scans r.scans ts
rows_found ts r h = subst (λ x. Scans x ts) (sym h) (Scans-all ts)

pub memory-Laws : Laws memory
memory-Laws = record {
  committed = λ d. d.content;
  seen = λ tx d. d.pending;
  now = λ tx. tx;
  begin_keeps = λ d. refl;
  begin_sees = λ d tx h. refl;
  exec_keeps = λ tx u d. refl;
  exec_sees = λ tx u d n h. refl;
  insert_keeps = insert_row-keeps;
  insert_sees = insert_row-sees;
  rollback_keeps = λ tx d. refl;
  commit_writes = λ tx d h. fail_or-ok d.commits d h;
  commit_or_not = λ tx d. ground arith;
  task_by_id_keeps = λ key d. ground arith;
  task_by_id_found = λ key d t h. found_or-ok _ d t h;
  task_by_id_missing = λ key d h. found_or-missing _ d h;
  tasks_by_user_keeps = λ key d. refl;
  tasks_by_user_found = λ key d r h e. rows_found (tasks_of key d.content.tasks) r (ground arith);
  user_by_id_keeps = λ key d. ground arith;
  user_by_username_keeps = λ name d. ground arith;
  user_by_username_found = λ name d u h. found_or-ok _ d u h;
  insert_user_new = λ tx name hash d key h. ground arith;
  insert_task_new = λ tx u t s d key h. ground arith;
}

pub memory_committed : (d : Memory) → memory-Laws.committed d ≡ d.content
unfolding memory-Laws
memory_committed d = refl

pub memory-CalmDatabase : CalmDatabase memory
memory-CalmDatabase = record {
  begin = λ d p h. cc;
  commit = λ tx d p h. ground arith;
  rollback = λ tx d p h. cc;
  exec = λ tx u d p h. cc;
}

abbrev pub task_row : ℤ → ℤ → String → String → Task
task_row id user_id task_type status = record {
  id = id;
  user_id = user_id;
  task_type = task_type;
  status = status;
  result_file = none;
  error_message = none;
  created_at = 0;
  updated_at = 0;
}

abbrev pub holding : List Task → List User → List Bool → Memory
holding tasks users commits = record {
  content = record { tasks = tasks; users = users };
  pending = record { tasks = tasks; users = users };
  clock = 100;
  commits = commits;
}

-- ===== src/System/Owners.antt =====
-- Whose a task is never changes, in spite of a cache that is not emptied.
use mathlib.Core.Path.{subst}
use async_task_orchestrator.Prelude.{
  some-injective, =ℤ_iff, ℕ, String, ℤ, ◌=ℤ◌, Bool-cases, ◌≡◌, refl, sym, ap, ◌∙◌, arith, inl, inr,
  some, List, [], ◌∷◌, ◌++◌, none,
}
use async_task_orchestrator.Sql.Tables.{insert_task, Task, Content, inserted, find_task}
use async_task_orchestrator.Task.Grows.{Grown}
use async_task_orchestrator.User.Grows.{Joined}
use async_task_orchestrator.Worker.Touched.{Touch, TouchAll, Touched}

-- There is a row with the identity `id` that is the same task as `t`: of the same user and type,
-- and made at the same time. Its status may have changed.
pub record Owned (c : Content) (id : ℤ) (t : Task) : Type 0 where
  pub row : Task
  pub stored : find_task id c.tasks ≡ some row
  pub same_id : row.id ≡ t.id
  pub same_user : row.user_id ≡ t.user_id
  pub same_type : row.task_type ≡ t.task_type
  pub same_created : row.created_at ≡ t.created_at

pub row-Owned : (c : Content) (id : ℤ) (t : Task) → find_task id c.tasks ≡ some t → Owned c id t
row-Owned c id t h = record {
  row = t;
  stored = h;
  same_id = refl;
  same_user = refl;
  same_type = refl;
  same_created = refl;
}

found_touched :
    (key j : ℤ) (ts us : List Task) (t : Task)
    → TouchAll key ts us
    → find_task j ts ≡ some t
    → (u : Task) × (find_task j us ≡ some u) × Touch key t u
unfolding find_task
found_touched key j [] [] t h f = absurd cc
found_touched key j (t' ∷ ts) (u ∷ us) t (h, hs) f = elim (Bool-cases (t'.id =ℤ j)) [
  | inl here ↦
      let e : t' ≡ t = some-injective (rw here at f) in
      (u, rw (h.same_id, here) refl, subst (λ x. Touch key x u) e h)
  | inr there ↦
      let (v, found, touch) = found_touched key j ts us t hs (rw there at f) in
      (v, rw (h.same_id, there) found, touch)
]
found_touched key j [] (u ∷ us) t h f = absurd h
found_touched key j (t' ∷ ts) [] t h f = absurd h

find_task-append_some :
    (j : ℤ) (ts : List Task) (u t : Task)
    → find_task j ts ≡ some t
    → find_task j (ts ++ u ∷ []) ≡ some t
unfolding find_task
find_task-append_some j [] u t h = absurd cc
find_task-append_some j (t' ∷ ts) u t h = ground (arith, find_task-append_some j ts u t)

pub Touched-Owned :
    (key : ℤ) (before now : Content) (id : ℤ) (t : Task)
    → Touched key before now
    → Owned before id t
    → Owned now id t
Touched-Owned key before now id t (rows, users) o =
    let (u, found, touch) = found_touched key id before.tasks now.tasks o.row rows o.stored in
    record {
      row = u;
      stored = found;
      same_id = touch.same_id ∙ o.same_id;
      same_user = touch.same_user ∙ o.same_user;
      same_type = touch.same_type ∙ o.same_type;
      same_created = touch.same_created ∙ o.same_created;
    }

pub Grown-Owned :
    (before now : Content) (id : ℤ) (t : Task)
    → Grown "PENDING" before now
    → Owned before id t
    → Owned now id t
Grown-Owned before now id t (inl same) o = subst (λ c. Owned c id t) (sym same) o
Grown-Owned before now id t (inr (key, time, user_id, task_type, fresh, stored)) o = record {
  row = o.row;
  stored =
      ap (λ c. find_task id c.tasks) stored
      ∙ (unfold inserted in find_task-append_some id before.tasks _ o.row o.stored);
  same_id = o.same_id;
  same_user = o.same_user;
  same_type = o.same_type;
  same_created = o.same_created;
}

Joined-tasks :
    (Given : String → String → Type 0) (before now : Content)
    → Joined Given before now
    → now.tasks ≡ before.tasks
Joined-tasks Given before now (inl same) = ap (λ c. c.tasks) same
Joined-tasks Given before now (inr (id, time, username, hash, given, n, i, stored)) =
    ap (λ c. c.tasks) stored ∙ (unfold inserted in refl)

pub Joined-Owned :
    (Given : String → String → Type 0) (before now : Content) (id : ℤ) (t : Task)
    → Joined Given before now
    → Owned before id t
    → Owned now id t
Joined-Owned Given before now id t joined o = record {
  row = o.row;
  stored = ap (find_task id) (Joined-tasks Given before now joined) ∙ o.stored;
  same_id = o.same_id;
  same_user = o.same_user;
  same_type = o.same_type;
  same_created = o.same_created;
}

find_task-appended :
    (j : ℤ) (ts : List Task) (u : Task)
    → u.id ≡ j
    → find_task j ts ≡ none
    → find_task j (ts ++ u ∷ []) ≡ some u
unfolding find_task
find_task-appended j [] u e h = ground (arith, =ℤ_iff u.id j)
find_task-appended j (t ∷ ts) u e h = ground (arith, find_task-appended j ts u e)

-- The task has a new row.
abbrev pub NewRow : Task → Content → Content → Type 0
NewRow task before now =
    (time : ℕ) × (find_task task.id before.tasks ≡ none)
    × (now ≡ inserted time task.id (insert_task task.user_id task.task_type task.status) before)

-- The content has a row of the user and the type of the task.
pub record OfTask (task : Task) (c : Content) : Type 0 where
  pub row : Task
  pub owned : Owned c task.id row
  pub its_user : row.user_id ≡ task.user_id
  pub its_type : row.task_type ≡ task.task_type

pub NewRow-OfTask : (task : Task) (before now : Content) → NewRow task before now → OfTask task now
NewRow-OfTask task before now (time, fresh, stored) =
    let row : Task = record {
      id = task.id;
      user_id = task.user_id;
      task_type = task.task_type;
      status = task.status;
      result_file = none;
      error_message = none;
      created_at = time;
      updated_at = time;
    } in
    let found : find_task task.id now.tasks ≡ some row =
      ap (λ d. find_task task.id d.tasks) stored
      ∙ (unfold inserted in find_task-appended task.id before.tasks row refl fresh) in
    record { row = row; owned = row-Owned now task.id row found; its_user = refl; its_type = refl }

pub OfTask-kept :
    (task : Task) (before now : Content)
    → ((id : ℤ) (x : Task) → Owned before id x → Owned now id x)
    → OfTask task before
    → OfTask task now
OfTask-kept task before now kept h = record {
  row = h.row;
  owned = kept task.id h.row h.owned;
  its_user = h.its_user;
  its_type = h.its_type;
}

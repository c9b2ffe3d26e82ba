-- ===== src/Worker/Touched.antt =====
-- The rows of tasks that a worker of internal/worker/worker.go may change, and how.
pub mod Rounds
pub mod Statuses
use mathlib.Core.Path.{subst}
use async_task_orchestrator.Prelude.{
  ℕ, ℤ, pos, leb_ℤ, ◌+ℤ◌, ◌=ℤ◌, =ℤ_iff, Bool, Bool-cases, true, false, String, ◌≡◌, ◌⊎◌, refl, sym,
  ap, ◌∙◌, arith, inl, inr, Option, none, some, List, [], ◌∷◌, map, Text, if◌then◌else◌,
}
use async_task_orchestrator.Go.{Error, text, Outcome-cases, M, handle, pure, ◌>>=◌}
use async_task_orchestrator.Sql.{Database, Laws}
use async_task_orchestrator.Sql.Tables.{
  Task, TaskSet, User, Content, Update, update_tasks, set_status, set_result_file,
  set_error_message, updated_at_now, updated, assign, assign_all, update_task_row,
}
use async_task_orchestrator.Utils.Tx.{with_transaction}
use async_task_orchestrator.Queue.Message.{Delivery}
use async_task_orchestrator.Queue.Channel.{Channel}
use async_task_orchestrator.Task.Model.{TaskPayload}
use async_task_orchestrator.Task.Marks.{update_atomic}
use async_task_orchestrator.Task.Repository.{mark_processing, mark_success, mark_failed}
use async_task_orchestrator.Worker.Proc.{handle_task}
use async_task_orchestrator.Worker.Loop.{
  World, on_db, logged, ack, nack, republish_with_retry, record_result, retry, work, deliver,
  handle_delivery, retry_count,
}

-- The statuses that a worker writes.
abbrev pub WorkerStatus : String → Type 0
WorkerStatus s = (s ≡ "PROCESSING") ⊎ ((s ≡ "SUCCESS") ⊎ (s ≡ "FAILED"))

-- A row before and after: the same task, and if it is another row, then it is the one with the
-- identity `key`, in a status that a worker writes.
pub record Touch (key : ℤ) (before now : Task) : Type 0 where
  pub same_id : now.id ≡ before.id
  pub same_user : now.user_id ≡ before.user_id
  pub same_type : now.task_type ≡ before.task_type
  pub same_created : now.created_at ≡ before.created_at
  pub marked : (now ≡ before) ⊎ ((before.id ≡ key) × WorkerStatus now.status)

-- The rows one by one: none is added, and none is removed.
abbrev pub TouchAll : ℤ → List Task → List Task → Type 0
TouchAll key [] [] = Unit
TouchAll key (t ∷ ts) (u ∷ us) = Touch key t u × TouchAll key ts us
TouchAll key [] (u ∷ us) = ⊥
TouchAll key (t ∷ ts) [] = ⊥

abbrev pub Touched : ℤ → Content → Content → Type 0
Touched key before now = TouchAll key before.tasks now.tasks × (now.users ≡ before.users)

module _ (key : ℤ) where
  Touch-refl : (t : Task) → Touch key t t
  Touch-refl t = record {
    same_id = refl;
    same_user = refl;
    same_type = refl;
    same_created = refl;
    marked = inl refl;
  }

  marked_trans :
      (t u v : Task)
      → u.id ≡ t.id
      → (u ≡ t) ⊎ ((t.id ≡ key) × WorkerStatus u.status)
      → (v ≡ u) ⊎ ((u.id ≡ key) × WorkerStatus v.status)
      → (v ≡ t) ⊎ ((t.id ≡ key) × WorkerStatus v.status)
  marked_trans t u v e (inl a) (inl b) = inl (b ∙ a)
  marked_trans t u v e (inr (i, a)) (inl b) = inr (i, subst (λ x. WorkerStatus x.status) (sym b) a)
  marked_trans t u v e a (inr (i, b)) = inr (sym e ∙ i, b)

  Touch-trans : (t u v : Task) → Touch key t u → Touch key u v → Touch key t v
  Touch-trans t u v a b = record {
    same_id = b.same_id ∙ a.same_id;
    same_user = b.same_user ∙ a.same_user;
    same_type = b.same_type ∙ a.same_type;
    same_created = b.same_created ∙ a.same_created;
    marked = marked_trans t u v a.same_id a.marked b.marked;
  }

  pub TouchAll-refl : (ts : List Task) → TouchAll key ts ts
  TouchAll-refl [] = tt
  TouchAll-refl (t ∷ ts) = (Touch-refl t, TouchAll-refl ts)

  pub TouchAll-trans : (a b c : List Task) → TouchAll key a b → TouchAll key b c → TouchAll key a c
  TouchAll-trans [] [] [] h k = tt
  TouchAll-trans (t ∷ a) (u ∷ b) (v ∷ c) (h, hs) (k, ks) =
      (Touch-trans t u v h k, TouchAll-trans a b c hs ks)
  TouchAll-trans [] [] (v ∷ c) h k = absurd k
  TouchAll-trans [] (u ∷ b) c h k = absurd h
  TouchAll-trans (t ∷ a) [] c h k = absurd h
  TouchAll-trans (t ∷ a) (u ∷ b) [] h k = absurd k

  -- The assignments leave the task the same one, and set such a status.
  abbrev pub Marking : ℕ → List TaskSet → Type 0
  Marking now sets = (t : Task) → t.id ≡ key → Touch key t (assign_all now sets t)

  row_touched :
      (now : ℕ) (sets : List TaskSet) (t : Task)
      → Marking now sets
      → Touch key t (update_task_row now sets key t)
  unfolding update_task_row
  row_touched now sets t m = elim (Bool-cases (t.id =ℤ key)) [
    | inl same ↦ rw same (m t ((=ℤ_iff t.id key).0 same))
    | inr other ↦ rw other (Touch-refl t)
  ]

  TouchAll-map :
      (now : ℕ) (sets : List TaskSet) (ts : List Task)
      → Marking now sets
      → TouchAll key ts (map (update_task_row now sets key) ts)
  TouchAll-map now sets [] m = tt
  TouchAll-map now sets (t ∷ ts) m = (row_touched now sets t m, TouchAll-map now sets ts m)

  pub processing-Marking : (now : ℕ) → Marking now (set_status "PROCESSING" ∷ updated_at_now ∷ [])
  unfolding assign_all assign
  processing-Marking now t e = record {
    same_id = refl;
    same_user = refl;
    same_type = refl;
    same_created = refl;
    marked = inr (e, inl refl);
  }

  pub success-Marking :
      (file : String) (now : ℕ)
      → Marking now (set_status "SUCCESS" ∷ set_result_file file ∷ updated_at_now ∷ [])
  unfolding assign_all assign
  success-Marking file now t e = record {
    same_id = refl;
    same_user = refl;
    same_type = refl;
    same_created = refl;
    marked = inr (e, inr (inl refl));
  }

  pub failed-Marking :
      (message : String) (now : ℕ)
      → Marking now (set_status "FAILED" ∷ set_error_message message ∷ updated_at_now ∷ [])
  unfolding assign_all assign
  failed-Marking message now t e = record {
    same_id = refl;
    same_user = refl;
    same_type = refl;
    same_created = refl;
    marked = inr (e, inr (inr refl));
  }

module _ (q : Database) (laws : Laws q) (key : ℤ) where
  open laws use {committed}

  pub update-Touched :
      (sets : List TaskSet) (d : q.Db)
      → ((now : ℕ) → Marking key now sets)
      → Touched key (committed d) (
          committed
            (with_transaction q
              (λ tx. q.exec tx (update_tasks sets key) >>= λ _. pure {A = Unit {0}} tt)
              d).1)
  unfolding updated
  update-Touched sets d m = elim (update_atomic q laws (update_tasks sets key) d) [
    | inl same ↦
        subst (Touched key (committed d)) (sym same) (TouchAll-refl key (committed d).tasks, refl)
    | inr (now, wrote) ↦
        subst (Touched key (committed d)) (sym wrote)
          (TouchAll-map key now sets (committed d).tasks (m now), refl)
  ]

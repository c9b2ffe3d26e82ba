-- ===== src/Worker/Done.antt =====
-- What an acknowledged delivery has done to the tasks (internal/worker/worker.go).
use async_task_orchestrator.Utils.Calm.{with_transaction-Calm, CalmDatabase}
use async_task_orchestrator.Task.Calm.{mark_processing-Calm}
use async_task_orchestrator.Worker.Settle.{
  record_result-Calm, CalmChannel, Unfinished-not_acked, retry-Ends, nack-Ends,
}
use async_task_orchestrator.Worker.Loop.{
  logged, ack, acked, World, record_result, work, deliver, handle_delivery, retry_count,
}
use mathlib.Core.Option
use async_task_orchestrator.Prelude.{
  ℕ, ℤ, =ℤ_iff, =ℤ_refl, ◌≡◌, ◌≢◌, refl, arith, inl, inr, Option, none, some, List, [], ◌∷◌, ◌++◌,
  map, Text, false, true,
}
use async_task_orchestrator.Go.{Error, text, Outcome-cases, ok}
use async_task_orchestrator.Sql.{Database, Laws}
use async_task_orchestrator.Sql.Tables.{
  Task, TaskSet, Content, update_tasks, set_status, set_result_file, set_error_message,
  updated_at_now, updated, assign_all, update_task_row, find_task,
}
use async_task_orchestrator.Sql.Updates.{find_task-update}
use async_task_orchestrator.Utils.Tx.{with_transaction}
use async_task_orchestrator.Queue.Message.{Delivery}
use async_task_orchestrator.Queue.Channel.{Channel}
use async_task_orchestrator.Task.Model.{TaskPayload}
use async_task_orchestrator.Task.Repository.{mark_processing}
use async_task_orchestrator.Task.Marks.{
  mark_processing_committed, mark_success_committed, mark_failed_committed,
}
use async_task_orchestrator.Worker.Proc.{handle_task}

-- A task's row after its work: SUCCESS and the result file, or FAILED and the error's text.
abbrev pub finished_row : Option Error → ℕ → Task → Task
finished_row none time t = record t {
  status = "SUCCESS";
  result_file = some "result.txt";
  updated_at = time;
}
finished_row (some e) time t = record t {
  status = "FAILED";
  error_message = some (text e);
  updated_at = time;
}

-- The row of the payload is the finished one, if there is such a row, and all others are as before.
pub record Finished (key : ℤ) (r : Option Error) (before now : List Task) : Type 0 where
  pub time : ℕ
  pub row : find_task key now ≡ Option.map (finished_row r time) (find_task key before)
  pub others : (j : ℤ) → key ≢ j → find_task j now ≡ find_task j before

abbrev result_sets : Option Error → List TaskSet
result_sets none = set_status "SUCCESS" ∷ set_result_file "result.txt" ∷ updated_at_now ∷ []
result_sets (some e) = set_status "FAILED" ∷ set_error_message (text e) ∷ updated_at_now ∷ []

twice_assigned :
    (r : Option Error) (s t : ℕ) (o : Option Task)
    → Option.map
        (assign_all t (result_sets r))
        (Option.map (assign_all s (set_status "PROCESSING" ∷ updated_at_now ∷ [])) o)
      ≡ Option.map (finished_row r t) o
unfolding assign_all
twice_assigned none s t none = refl
twice_assigned none s t (some x) = refl
twice_assigned (some e) s t none = refl
twice_assigned (some e) s t (some x) = refl

updates_finish :
    (key : ℤ) (r : Option Error) (s t : ℕ) (c : Content)
    → Finished key r c.tasks
        (updated t
          (update_tasks (result_sets r) key)
          (updated s (update_tasks (set_status "PROCESSING" ∷ updated_at_now ∷ []) key) c)).tasks
unfolding updated
updates_finish key r s t c = record {
  time = t;
  row =
      rw (find_task-update, =ℤ_refl, find_task-update, =ℤ_refl)
        (twice_assigned r s t (find_task key c.tasks));
  others = λ j ne. ground (
    arith,
    find_task-update t (result_sets r) key j
        (map (update_task_row s (set_status "PROCESSING" ∷ updated_at_now ∷ []) key) c.tasks),
    find_task-update s (set_status "PROCESSING" ∷ updated_at_now ∷ []) key j c.tasks,
    =ℤ_iff key j,
  );
}

module _ (q : Database) (c : Channel) (laws : Laws q) (calm : CalmDatabase q)
    (calm_channel : CalmChannel c) where
  open laws use {committed}

  record_result_committed :
      (payload : TaskPayload) (r : Option Error) (d : q.Db) (a : Unit {0})
      → (with_transaction q (record_result q c payload r) d).0 ≡ ok a
      → (time : ℕ) × (committed (with_transaction q (record_result q c payload r) d).1
          ≡ updated time (update_tasks (result_sets r) payload.id) (committed d))
  unfolding record_result
  record_result_committed payload none d a h =
      mark_success_committed q laws payload.id "result.txt" d a h
  record_result_committed payload (some e) d a h =
      mark_failed_committed q laws payload.id (text e) d a h

  ack-db : (tag : ℕ) (w : World q c) → (logged q c (ack q c tag) w).1.db ≡ w.db
  unfolding ack
  ack-db tag w = ground arith

  work_acked :
      (id : ℕ) (msg : Delivery) (payload : TaskPayload) (w : World q c)
      → (work q c id msg payload (retry_count msg.headers) w).1.calls
        ≡ w.calls ++ acked msg.tag ∷ []
      → let m = with_transaction q (record_result q c payload (handle_task payload id)) w.db in
        (a : Unit {0}) × (m.0 ≡ ok a)
        × ((work q c id msg payload (retry_count msg.headers) w).1.db ≡ m.1)
  unfolding work
  work_acked id msg payload w h =
      elim (Outcome-cases
        (with_transaction q (record_result q c payload (handle_task payload id)) w.db).0) [
          | inl (a, done) ↦ (a, done, rw done (ack-db msg.tag _))
          | inr (inl (e, failed)) ↦ absurd (
              Unfinished-not_acked msg w.calls _ (retry-Ends q c calm calm_channel msg payload _).1
                (rw failed at h))
          | inr (inr (p, failed)) ↦ absurd (
              with_transaction-Calm q calm _
                (record_result-Calm q c calm calm_channel payload (handle_task payload id)) w.db p
                failed)
        ]

  deliver_acked :
      (o : Option TaskPayload) (id : ℕ) (msg : Delivery) (w : World q c)
      → (deliver q c id msg o w).1.calls ≡ w.calls ++ acked msg.tag ∷ []
      → (payload : TaskPayload) × (o ≡ some payload)
        × Finished payload.id
            (handle_task payload id)
            (committed w.db).tasks
            (committed (deliver q c id msg o w).1.db).tasks
  unfolding deliver
  deliver_acked none id msg w h = absurd (
      Unfinished-not_acked msg w.calls _
        (nack-Ends q c calm calm_channel msg false w.calls w refl).1 h)
  deliver_acked (some payload) id msg w h =
      elim (Outcome-cases (with_transaction q (λ tx. mark_processing q tx payload.id) w.db).0) [
        | inl (a, done) ↦
            let w' = record w {
              db = (with_transaction q (λ tx. mark_processing q tx payload.id) w.db).1;
            } in
            let (b, worked, state) = work_acked id msg payload w' (rw done at h) in
            let (s, first) = mark_processing_committed q laws payload.id w.db a done in
            let (t, second) =
              record_result_committed payload (handle_task payload id) w'.db b worked in
            (
              payload,
              refl,
              rw done (
                  rw (state, second, first)
                    (updates_finish payload.id (handle_task payload id) s t (committed w.db))),
            )
        | inr (inl (e, failed)) ↦ absurd (
            Unfinished-not_acked msg w.calls _
              (nack-Ends q c calm calm_channel msg true w.calls _ refl).1 (rw failed at h))
        | inr (inr (p, failed)) ↦ absurd (
            with_transaction-Calm q calm _ (λ tx. mark_processing-Calm q calm tx payload.id) w.db p
              failed)
      ]

  -- If no call panics, a delivery is acknowledged, with no copy sent first, only if its body is a
  -- task payload, and then the committed row of that task is SUCCESS with its result file, or
  -- FAILED with the text of the task's error; the other rows are unchanged.
  pub acknowledged-Finished :
      (unmarshal : Text → Option TaskPayload) (id : ℕ) (msg : Delivery) (w : World q c)
      → (handle_delivery q c unmarshal id msg w).1.calls ≡ w.calls ++ acked msg.tag ∷ []
      → (payload : TaskPayload) × (unmarshal msg.body ≡ some payload)
        × Finished payload.id
            (handle_task payload id)
            (committed w.db).tasks
            (committed (handle_delivery q c unmarshal id msg w).1.db).tasks
  unfolding handle_delivery
  acknowledged-Finished unmarshal id msg w h = deliver_acked (unmarshal msg.body) id msg w h

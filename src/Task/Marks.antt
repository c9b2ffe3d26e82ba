-- ===== src/Task/Marks.antt =====
-- The status updates of internal/task/repository.go run by WithTransaction: what they commit.
use async_task_orchestrator.Prelude.{◌∙◌, ap, inl, inr, arith, ℕ, ℤ, String, ◌≡◌, ◌⊎◌, [], ◌∷◌}
use async_task_orchestrator.Go.{Outcome-cases, ok, pure, ◌>>=◌}
use async_task_orchestrator.Sql.{Database, Laws}
use async_task_orchestrator.Sql.Tables.{
  Update, update_tasks, set_status, set_result_file, set_error_message, updated_at_now, updated,
}
use async_task_orchestrator.Utils.Tx.{with_transaction}
use async_task_orchestrator.Utils.Atomic.{with_transaction_ok, with_transaction_atomic}
use async_task_orchestrator.Task.Repository.{mark_processing, mark_success, mark_failed}

module _ (q : Database) (laws : Laws q) where
  open laws use {committed, now}

  -- After an UPDATE that is committed, its transaction has seen the tables of before.
  exec_ok :
      (u : Update) (tx : q.Tx) (d : q.Db) (a : Unit {0})
      → ((q.exec tx u >>= λ _. pure {A = Unit {0}} tt) d).0 ≡ ok a
      → (n : ℕ) × ((q.exec tx u d).0 ≡ ok n)
        × (((q.exec tx u >>= λ _. pure {A = Unit {0}} tt) d).1 ≡ (q.exec tx u d).1)
  exec_ok u tx d a h = elim (Outcome-cases (q.exec tx u d).0) [
    | inl (n, e) ↦ (n, e, rw e)
    | inr (inl (x, e)) ↦ absurd (ground arith)
    | inr (inr (x, e)) ↦ absurd (ground arith)
  ]

  update_committed :
      (u : Update) (d : q.Db) (a : Unit {0})
      → (with_transaction q (λ tx. q.exec tx u >>= λ _. pure {A = Unit {0}} tt) d).0 ≡ ok a
      → (time : ℕ) × (committed
            (with_transaction q (λ tx. q.exec tx u >>= λ _. pure {A = Unit {0}} tt) d).1
          ≡ updated time u (committed d))
  update_committed u d a h =
      let w =
        with_transaction_ok q laws (λ tx. q.exec tx u >>= λ _. pure {A = Unit {0}} tt) d a h in
      let (n, done, state) = exec_ok u w.tx (q.begin d).1 a w.returned in
      (
        now w.tx,
        w.visible
            ∙ ap (laws.seen w.tx) state
            ∙ laws.exec_sees w.tx u (q.begin d).1 n done
            ∙ ap (updated (now w.tx) u) (laws.begin_sees d w.tx w.opened),
      )

  -- An UPDATE in a transaction of its own, whatever fails or panics.
  pub update_atomic :
      (u : Update) (d : q.Db)
      → let d' = (with_transaction q (λ tx. q.exec tx u >>= λ _. pure {A = Unit {0}} tt) d).1 in
        (committed d' ≡ committed d) ⊎ ((time : ℕ) × (committed d' ≡ updated time u (committed d)))
  update_atomic u d =
      elim (with_transaction_atomic q laws (λ tx. q.exec tx u >>= λ _. pure {A = Unit {0}} tt) d
        (λ tx e. ground (arith, laws.exec_keeps tx u e))) [
          | inl same ↦ inl same
          | inr (a, w) ↦
              let (n, done, state) = exec_ok u w.tx (q.begin d).1 a w.returned in
              inr (
                now w.tx,
                w.visible
                    ∙ ap (laws.seen w.tx) state
                    ∙ laws.exec_sees w.tx u (q.begin d).1 n done
                    ∙ ap (updated (now w.tx) u) (laws.begin_sees d w.tx w.opened),
              )
        ]

  pub mark_processing_committed :
      (id : ℤ) (d : q.Db) (a : Unit {0})
      → (with_transaction q (λ tx. mark_processing q tx id) d).0 ≡ ok a
      → (time : ℕ) × (committed (with_transaction q (λ tx. mark_processing q tx id) d).1
          ≡ updated time
              (update_tasks (set_status "PROCESSING" ∷ updated_at_now ∷ []) id)
              (committed d))
  unfolding mark_processing
  mark_processing_committed id d a h = update_committed _ d a h

  pub mark_success_committed :
      (id : ℤ) (file : String) (d : q.Db) (a : Unit {0})
      → (with_transaction q (λ tx. mark_success q tx id file) d).0 ≡ ok a
      → (time : ℕ) × (committed (with_transaction q (λ tx. mark_success q tx id file) d).1
          ≡ updated time
              (update_tasks (set_status "SUCCESS" ∷ set_result_file file ∷ updated_at_now ∷ []) id)
              (committed d))
  unfolding mark_success
  mark_success_committed id file d a h = update_committed _ d a h

  pub mark_failed_committed :
      (id : ℤ) (message : String) (d : q.Db) (a : Unit {0})
      → (with_transaction q (λ tx. mark_failed q tx id message) d).0 ≡ ok a
      → (time : ℕ) × (committed (with_transaction q (λ tx. mark_failed q tx id message) d).1
          ≡ updated time
              (update_tasks
                (set_status "FAILED" ∷ set_error_message message ∷ updated_at_now ∷ [])
                id)
              (committed d))
  unfolding mark_failed
  mark_failed_committed id message d a h = update_committed _ d a h

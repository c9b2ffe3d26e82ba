-- ===== src/Task/Calm.antt =====
-- The panics of the status updates of internal/task/repository.go.
use async_task_orchestrator.Prelude.{ℤ, String, arith}
use async_task_orchestrator.Sql.{Database}
use async_task_orchestrator.Utils.Calm.{Calm, CalmDatabase}
use async_task_orchestrator.Task.Repository.{mark_processing, mark_success, mark_failed}

module _ (q : Database) (calm : CalmDatabase q) (tx : q.Tx) (id : ℤ) where
  pub mark_processing-Calm : Calm (mark_processing q tx id)
  unfolding mark_processing
  mark_processing-Calm s p e = grind (arith, calm.exec)

  pub mark_success-Calm : (file : String) → Calm (mark_success q tx id file)
  unfolding mark_success
  mark_success-Calm file s p e = grind (arith, calm.exec)

  pub mark_failed-Calm : (message : String) → Calm (mark_failed q tx id message)
  unfolding mark_failed
  mark_failed-Calm message s p e = grind (arith, calm.exec)

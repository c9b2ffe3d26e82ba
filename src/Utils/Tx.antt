-- ===== src/Utils/Tx.antt =====
-- internal/utils/tx.go: WithTransaction. Its function argument writes its results to variables of
-- its caller; here it returns them.
use async_task_orchestrator.Go.{ok, M, raise, handle, ignoring, on_panic, ◌>>=◌}
use async_task_orchestrator.Sql.{Database}

module _ (q : Database) {A : Type 0} where
  open q use {Db, Tx, begin, commit, rollback}

  -- The function body from the call of `fn` on.
  unfoldable pub in_transaction : (Tx → M Db A) → Tx → M Db A
  in_transaction fn tx =
      handle (fn tx) (λ a. commit tx >>= λ _ s. (ok a, s)) (λ e. ignoring (rollback tx) (raise e))

  unfoldable pub with_transaction : (Tx → M Db A) → M Db A
  with_transaction fn = begin >>= λ tx. on_panic (in_transaction fn tx) (rollback tx)

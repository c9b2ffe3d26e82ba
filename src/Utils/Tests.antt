-- ===== src/Utils/Tests.antt =====
-- Transactions on a database in memory.
use async_task_orchestrator.Prelude.{◌≡◌, ◌⊎◌, ◌≢◌, refl, pos, false, [], ◌∷◌}
use async_task_orchestrator.Go.{new, ok, M, raise}
use async_task_orchestrator.Utils.Tx.{with_transaction, in_transaction}
use async_task_orchestrator.Utils.Atomic.{
  Wrote, with_transaction_ok, with_transaction_atomic, with_transaction_undone,
}
use async_task_orchestrator.Samples.Memory.{Memory, memory, memory-Laws, holding, task_row}
use async_task_orchestrator.Task.Repository.{mark_processing}

abbrev start : Memory
start = holding (task_row (pos 7) (pos 1) "send_email" "PENDING" ∷ []) [] (false ∷ [])

abbrev open_start : Memory
open_start = holding (task_row (pos 7) (pos 1) "send_email" "PENDING" ∷ []) [] []

marking : memory.Tx → M Memory (Unit {0})
marking tx = mark_processing memory tx (pos 7)

marked : (with_transaction memory marking open_start).0 ≡ ok tt
unfolding with_transaction in_transaction marking mark_processing
marked = refl

with_transaction_ok_test :
    Wrote memory memory-Laws marking open_start tt (with_transaction memory marking open_start).1
with_transaction_ok_test = with_transaction_ok memory memory-Laws marking open_start tt marked

marking_confined :
    (tx : memory.Tx) (d : Memory) → memory-Laws.committed (marking tx d).1 ≡ memory-Laws.committed d
unfolding marking mark_processing
marking_confined tx d = memory-Laws.exec_keeps tx _ d

with_transaction_atomic_example :
    (memory-Laws.committed (with_transaction memory marking start).1 ≡ memory-Laws.committed start)
    ⊎ ((a : Unit {0}) × Wrote memory memory-Laws marking start a
          (with_transaction memory marking start).1)
with_transaction_atomic_example =
    with_transaction_atomic memory memory-Laws marking start marking_confined

refusing : memory.Tx → M Memory (Unit {0})
refusing tx = raise (new "refused")

refusing_confined :
    (tx : memory.Tx) (d : Memory)
    → memory-Laws.committed (refusing tx d).1 ≡ memory-Laws.committed d
unfolding refusing
refusing_confined tx d = refl

refusing_fails : (a : Unit {0}) → (refusing 100 (memory.begin start).1).0 ≢ ok a
unfolding refusing
refusing_fails a h = cc

with_transaction_undone_test :
    memory-Laws.committed (with_transaction memory refusing start).1 ≡ memory-Laws.committed start
with_transaction_undone_test =
    with_transaction_undone memory memory-Laws refusing start 100 refusing_confined refl
      refusing_fails

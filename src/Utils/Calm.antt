-- ===== src/Utils/Calm.antt =====
-- The panics of WithTransaction of internal/utils/tx.go.
use async_task_orchestrator.Prelude.{refl, ◌∙◌, ◌≡◌, ◌≢◌, String, arith, inl, inr, sym}
use async_task_orchestrator.Go.{Outcome, Outcome-cases, ok, err, panic, M, recovered}
use async_task_orchestrator.Sql.{Database}
use async_task_orchestrator.Sql.Tables.{Update}
use async_task_orchestrator.Utils.Tx.{with_transaction, in_transaction}

-- `m` never panics.
abbrev pub Calm : {S A : Type 0} → M S A → Type 0
Calm {S} m = (s : S) (p : String) → (m s).0 ≢ panic p

-- No call of database/sql that the worker makes panics.
pub record CalmDatabase (q : Database) : Type 0 where
  pub begin : Calm q.begin
  pub commit : (tx : q.Tx) → Calm (q.commit tx)
  pub rollback : (tx : q.Tx) → Calm (q.rollback tx)
  pub exec : (tx : q.Tx) (u : Update) → Calm (q.exec tx u)

module _ (q : Database) (calm : CalmDatabase q) {A : Type 0} where
  in_transaction-Calm :
      (fn : q.Tx → M q.Db A) (tx : q.Tx) → Calm (fn tx) → Calm (in_transaction q fn tx)
  unfolding in_transaction
  in_transaction-Calm fn tx h d p e =
      ground (arith, h d p, calm.commit tx (fn tx d).1 p, calm.rollback tx (fn tx d).1 p)

  recovered-calm :
      (r : Outcome A) (m : M q.Db (Unit {0})) (d : q.Db)
      → ((p : String) → r ≢ panic p)
      → (recovered r m d).0 ≡ r
  recovered-calm (ok a) m d h = refl
  recovered-calm (err e) m d h = refl
  recovered-calm (panic p) m d h = absurd (h p refl)

  pub with_transaction-Calm :
      (fn : q.Tx → M q.Db A) → ((tx : q.Tx) → Calm (fn tx)) → Calm (with_transaction q fn)
  unfolding with_transaction
  with_transaction-Calm fn h d p e = elim (Outcome-cases (q.begin d).0) [
    | inl (tx, opened) ↦
        let (r, s) = in_transaction q fn tx (q.begin d).1 in
        let body : (x : String) → (in_transaction q fn tx (q.begin d).1).0 ≢ panic x =
          in_transaction-Calm fn tx (h tx) (q.begin d).1 in
        body p (sym (recovered-calm r (q.rollback tx) s body) ∙ (rw opened at e))
    | inr (inl (x, failed)) ↦ ground arith
    | inr (inr (x, failed)) ↦ calm.begin d x failed
  ]

-- ===== src/Utils/Atomic.antt =====
-- The effect of WithTransaction of internal/utils/tx.go on the committed tables.
use async_task_orchestrator.Prelude.{◌∙◌, ◌≢◌, ◌≡◌, ◌⊎◌, inl, inr, arith}
use async_task_orchestrator.Go.{recovered, Outcome, ok, M, Outcome-cases}
use async_task_orchestrator.Sql.{Database, Laws}
use async_task_orchestrator.Utils.Tx.{with_transaction, in_transaction}

module _ (q : Database) (laws : Laws q) {A : Type 0} where
  open q use {Db, Tx, begin, commit, rollback}
  open laws use {committed, seen}

  -- `fn` writes through its transaction only.
  abbrev pub Confined : (Tx → M Db A) → Type 0
  Confined fn = (tx : Tx) (d : Db) → committed (fn tx d).1 ≡ committed d

  body_ok :
      (fn : Tx → M Db A) (tx : Tx) (d : Db) (a : A)
      → (in_transaction q fn tx d).0 ≡ ok a
      → ((fn tx d).0 ≡ ok a) × (committed (in_transaction q fn tx d).1 ≡ seen tx (fn tx d).1)
  unfolding in_transaction
  body_ok fn tx d a h = ground (arith, laws.commit_writes tx (fn tx d).1)

  body_atomic :
      (fn : Tx → M Db A) (tx : Tx) (d : Db)
      → Confined fn
      → (committed (in_transaction q fn tx d).1 ≡ committed d)
        ⊎ ((a : A) × ((fn tx d).0 ≡ ok a)
            × (committed (in_transaction q fn tx d).1 ≡ seen tx (fn tx d).1))
  unfolding in_transaction
  body_atomic fn tx d c =
      ground (arith, laws.commit_or_not tx (fn tx d).1, laws.rollback_keeps tx (fn tx d).1, c tx d)

  -- What a transaction that completed has written: it began, `fn` returned `a`, and the committed
  -- tables are what the transaction saw at the end of `fn`.
  pub record Wrote (fn : Tx → M Db A) (d : Db) (a : A) (d' : Db) : Type 0 where
    pub tx : Tx
    pub opened : (begin d).0 ≡ ok tx
    pub returned : (fn tx (begin d).1).0 ≡ ok a
    pub visible : committed d' ≡ seen tx (fn tx (begin d).1).1

  ok_after_begin :
      (fn : Tx → M Db A) (d : Db) (a : A)
      → (with_transaction q fn d).0 ≡ ok a
      → (tx : Tx) × ((begin d).0 ≡ ok tx)
        × ((in_transaction q fn tx (begin d).1).0 ≡ ok a)
        × ((with_transaction q fn d).1 ≡ (in_transaction q fn tx (begin d).1).1)
  unfolding with_transaction
  ok_after_begin fn d a h = ground arith

  -- When WithTransaction returns no error, the function returned, and all its statements are
  -- committed.
  pub with_transaction_ok :
      (fn : Tx → M Db A) (d : Db) (a : A)
      → (with_transaction q fn d).0 ≡ ok a
      → Wrote fn d a (with_transaction q fn d).1
  with_transaction_ok fn d a h =
      let (tx, opened, ran, same) = ok_after_begin fn d a h in
      let (returned, visible) = body_ok fn tx (begin d).1 a ran in
      record { tx = tx; opened = opened; returned = returned; visible = rw same visible }

  recovered-keeps :
      (tx : Tx) (r : Outcome A) (s : Db) → committed (recovered r (rollback tx) s).1 ≡ committed s
  recovered-keeps tx r s = ground (arith, laws.rollback_keeps tx s)

  with_transaction-body :
      (fn : Tx → M Db A) (d : Db) (tx : Tx)
      → (begin d).0 ≡ ok tx
      → committed (with_transaction q fn d).1 ≡ committed (in_transaction q fn tx (begin d).1).1
  unfolding with_transaction
  with_transaction-body fn d tx opened =
      let (r, s) = in_transaction q fn tx (begin d).1 in rw opened (recovered-keeps tx r s)

  -- For a function that commits nothing itself, whatever fails or panics, the committed tables
  -- are as before, or all the statements of a call that returned are in them.
  pub with_transaction_atomic :
      (fn : Tx → M Db A) (d : Db)
      → Confined fn
      → (committed (with_transaction q fn d).1 ≡ committed d)
        ⊎ ((a : A) × Wrote fn d a (with_transaction q fn d).1)
  unfolding with_transaction
  with_transaction_atomic fn d c = elim (Outcome-cases (begin d).0) [
    | inl (tx, opened) ↦ elim (body_atomic fn tx (begin d).1 c) [
      | inl same ↦ inl (with_transaction-body fn d tx opened ∙ same ∙ laws.begin_keeps d)
      | inr (a, returned, visible) ↦ inr (
        a,
        record {
          tx = tx;
          opened = opened;
          returned = returned;
          visible = with_transaction-body fn d tx opened ∙ visible;
        },
      )
    ]
    | inr (inl (e, failed)) ↦ inl (rw failed (laws.begin_keeps d))
    | inr (inr (p, failed)) ↦ inl (rw failed (laws.begin_keeps d))
  ]

  -- When a function that commits nothing itself fails or panics, the committed tables are as
  -- before.
  pub with_transaction_undone :
      (fn : Tx → M Db A) (d : Db) (tx : Tx)
      → Confined fn
      → (begin d).0 ≡ ok tx
      → ((a : A) → (fn tx (begin d).1).0 ≢ ok a)
      → committed (with_transaction q fn d).1 ≡ committed d
  with_transaction_undone fn d tx c opened failed = elim (with_transaction_atomic fn d c) [
    | inl same ↦ same
    | inr (a, w) ↦ absurd (failed a (cc))
  ]

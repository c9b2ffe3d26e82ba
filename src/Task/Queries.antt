-- ===== src/Task/Queries.antt =====
-- What GetByID and GetByUserID of internal/task/repository.go find.
use async_task_orchestrator.Prelude.{
  ℤ, ◌=ℤ◌, =ℤ_iff, Bool-cases, ◌≡◌, inl, inr, refl, sym, ap, ◌∙◌, arith, Option, none, some, List,
  [], ◌∷◌, ◌++◌,
}
use async_task_orchestrator.Go.{Error, Outcome, Outcome-cases, ok, err, panic, ok-injective}
use async_task_orchestrator.Sql.{Database, Laws, Scans}
use async_task_orchestrator.Sql.Tables.{Task, tasks_of, find_task}
use async_task_orchestrator.Task.Repository.{get_by_id, scanned, finished, get_by_user_id}
use async_task_orchestrator.Task.Caching.{OwnedBy}

tasks_of-OwnedBy : (id : ℤ) (ts : List Task) → OwnedBy id (tasks_of id ts)
unfolding tasks_of
tasks_of-OwnedBy id [] = tt
tasks_of-OwnedBy id (t ∷ ts) = elim (Bool-cases (t.user_id =ℤ id)) [
  | inl own ↦ rw own ((=ℤ_iff t.user_id id).0 own, tasks_of-OwnedBy id ts)
  | inr other ↦ rw other (tasks_of-OwnedBy id ts)
]

OwnedBy-append :
    (id : ℤ) (ts : List Task) (t : Task)
    → OwnedBy id ts
    → t.user_id ≡ id
    → OwnedBy id (ts ++ t ∷ [])
OwnedBy-append id [] t h e = (e, tt)
OwnedBy-append id (u ∷ ts) t (k, h) e = (k, OwnedBy-append id ts t h e)

scanned-OwnedBy :
    (id : ℤ) (scans : List (Outcome Task)) (rows found ts : List Task)
    → Scans scans rows
    → OwnedBy id rows
    → OwnedBy id found
    → scanned scans found ≡ ok ts
    → OwnedBy id ts
unfolding scanned
scanned-OwnedBy id [] [] found ts s o f h = rw (sym (ok-injective h)) f
scanned-OwnedBy id (ok t ∷ scans) (t' ∷ rows) found ts (e, s) (k, o) f h =
    scanned-OwnedBy id scans rows (found ++ t ∷ []) ts s o
      (OwnedBy-append id found t f (ap (λ u. u.user_id) e ∙ k)) h
scanned-OwnedBy id (err x ∷ scans) (t' ∷ rows) found ts s (k, o) f h =
    scanned-OwnedBy id scans rows found ts s o f h
scanned-OwnedBy id (panic p ∷ scans) rows found ts s o f h = absurd cc
scanned-OwnedBy id [] (t' ∷ rows) found ts s o f h = elim s [ ]
scanned-OwnedBy id (ok t ∷ scans) [] found ts s o f h = elim s [ ]
scanned-OwnedBy id (err x ∷ scans) [] found ts s o f h = elim s [ ]

finished-ok :
    (final : Option Error) (r : Outcome (List Task)) (ts : List Task)
    → finished final r ≡ ok ts
    → (final ≡ none) × (r ≡ ok ts)
unfolding finished
finished-ok none r ts h = (refl, h)
finished-ok (some e) (ok ts') ts h = absurd cc
finished-ok (some e) (err x) ts h = absurd cc
finished-ok (some e) (panic p) ts h = absurd cc

module _ (q : Database) (laws : Laws q) where
  pub get_by_user_id-OwnedBy :
      (id : ℤ) (d : q.Db) (ts : List Task) → (get_by_user_id q id d).0 ≡ ok ts → OwnedBy id ts
  unfolding get_by_user_id
  get_by_user_id-OwnedBy id d ts h = elim (Outcome-cases (q.tasks_by_user id d).0) [
    | inl (rows, found) ↦
        let (complete, all) = finished-ok rows.final (scanned rows.scans []) ts (rw found at h) in
        scanned-OwnedBy id rows.scans _ [] ts (laws.tasks_by_user_found id d rows found complete)
          (tasks_of-OwnedBy id (laws.committed d).tasks) tt all
    | inr (inl (e, failed)) ↦ absurd (cc (rw failed at h))
    | inr (inr (p, failed)) ↦ absurd (cc (rw failed at h))
  ]

  pub get_by_id-found :
      (id : ℤ) (d : q.Db) (t : Task)
      → (get_by_id q id d).0 ≡ ok t
      → find_task id (laws.committed d).tasks ≡ some t
  unfolding get_by_id
  get_by_id-found id d t h = elim (Outcome-cases (q.task_by_id id d).0) [
    | inl (t', e) ↦ laws.task_by_id_found id d t (e ∙ (rw e at h))
    | inr (inl (x, e)) ↦ absurd (cc (rw e at h))
    | inr (inr (p, e)) ↦ absurd (cc (rw e at h))
  ]

  pub get_by_id-keeps : (id : ℤ) (d : q.Db) → laws.committed (get_by_id q id d).1 ≡ laws.committed d
  unfolding get_by_id
  get_by_id-keeps id d = ground (arith, laws.task_by_id_keeps id d)

  pub get_by_user_id-keeps :
      (id : ℤ) (d : q.Db) → laws.committed (get_by_user_id q id d).1 ≡ laws.committed d
  unfolding get_by_user_id
  get_by_user_id-keeps id d = ground (arith, laws.tasks_by_user_keeps id d)

-- ===== src/Worker/Touched/Statuses.antt =====
-- The statuses of the tasks under the loop of a worker (internal/worker/worker.go).
use mathlib.Core.Path.{subst}
use async_task_orchestrator.Prelude.{
  Option-cases, ℕ, String, ◌≡◌, ◌⊎◌, refl, sym, ap, ◌∙◌, inl, inr, arith, Option, none, List, [],
  ◌∷◌, Text, All, ℤ, false, length, suc,
}
use async_task_orchestrator.Go.{Outcome-cases}
use async_task_orchestrator.Sql.{Database, Laws}
use async_task_orchestrator.Sql.Tables.{Task}
use async_task_orchestrator.Queue.Message.{Delivery}
use async_task_orchestrator.Queue.Channel.{Channel}
use async_task_orchestrator.Task.Model.{TaskPayload}
use async_task_orchestrator.Worker.Loop.{World, logged, nack, deliver, handle_delivery, run_worker}
use async_task_orchestrator.Worker.Touched.{WorkerStatus, Touch, TouchAll}
use async_task_orchestrator.Worker.Touched.Rounds.{handle_delivery-Touched}

-- The statuses of a task: the one it is created with, and those that a worker writes.
abbrev pub IsStatus : String → Type 0
IsStatus s = (s ≡ "PENDING") ⊎ WorkerStatus s

abbrev pub HasStatus : Task → Type 0
HasStatus t = IsStatus t.status

module _ (key : ℤ) where
  Touch-HasStatus : (t u : Task) → Touch key t u → HasStatus t → HasStatus u
  Touch-HasStatus t u h s = elim h.marked [
    | inl same ↦ subst HasStatus (sym same) s
    | inr (i, wrote) ↦ inr wrote
  ]

  pub TouchAll-HasStatus :
      (ts us : List Task)
      → TouchAll key ts us
      → All HasStatus ts
      → All HasStatus us × (length us ≡ length ts)
  TouchAll-HasStatus [] [] h s = (tt, refl)
  TouchAll-HasStatus (t ∷ ts) (u ∷ us) (h, hs) (s, ss) =
      let (rest, same) = TouchAll-HasStatus ts us hs ss in
      ((Touch-HasStatus t u h s, rest), ap suc same)
  TouchAll-HasStatus [] (u ∷ us) h s = absurd h
  TouchAll-HasStatus (t ∷ ts) [] h s = absurd h

module _ (q : Database) (laws : Laws q) (c : Channel) (unmarshal : Text → Option TaskPayload) where
  open laws use {committed}

  -- The statuses are as they must be, and there are `n` tasks.
  abbrev pub Kept : ℕ → World q c → Type 0
  Kept n w = All HasStatus (committed w.db).tasks × (length (committed w.db).tasks ≡ n)

  nack-db : (tag : ℕ) (w : World q c) → (logged q c (nack q c tag false) w).1.db ≡ w.db
  unfolding nack
  nack-db tag w = ground arith

  pub unread :
      (id : ℕ) (msg : Delivery) (w : World q c)
      → unmarshal msg.body ≡ none
      → (handle_delivery q c unmarshal id msg w).1.db ≡ w.db
  unfolding handle_delivery deliver
  unread id msg w h = rw h (nack-db msg.tag w)

  round-Kept :
      (n id : ℕ) (msg : Delivery) (w : World q c)
      → Kept n w
      → Kept n (handle_delivery q c unmarshal id msg w).1
  round-Kept n id msg w (s, many) = elim (Option-cases (unmarshal msg.body)) [
    | inl failed ↦
        subst (λ d. All HasStatus (committed d).tasks × (length (committed d).tasks ≡ n))
          (sym (unread id msg w failed)) (s, many)
    | inr (payload, read) ↦
        let (rows, users) = handle_delivery-Touched q laws c unmarshal id msg payload w read in
        let (s', same) = TouchAll-HasStatus payload.id _ _ rows s in (s', same ∙ many)
  ]

  -- Whatever deliveries a worker gets, and whatever fails or panics meanwhile, its loop keeps every
  -- task, and keeps their statuses among PENDING, PROCESSING, SUCCESS and FAILED.
  pub run_worker-Kept :
      (n id : ℕ) (msgs : List Delivery) (w : World q c)
      → Kept n w
      → Kept n (run_worker q c unmarshal id msgs w).1
  unfolding run_worker
  run_worker-Kept n id [] w h = h
  run_worker-Kept n id (msg ∷ msgs) w h =
      elim (Outcome-cases (handle_delivery q c unmarshal id msg w).0) [
        | inl (a, done) ↦ rw done (run_worker-Kept n id msgs _ (round-Kept n id msg w h))
        | inr (inl (e, failed)) ↦ rw failed (round-Kept n id msg w h)
        | inr (inr (p, failed)) ↦ rw failed (round-Kept n id msg w h)
      ]

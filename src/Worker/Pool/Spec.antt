-- ===== src/Worker/Pool/Spec.antt =====
-- The pool of internal/worker/worker.go as a queue that delivers at least once: how many messages of
-- a body there are, with the order, the workers, the tags and the headers forgotten.
use async_task_orchestrator.Prelude.{
  ap, ◌∙◌, if◌then◌else◌, ◌⊎◌, ℕ, ◌+◌, ◌≤◌, Bool-cases, ◌≡◌, refl, inl, inr, arith, Option, List,
  [], ◌∷◌, ◌++◌, Text, text_eq,
}
use async_task_orchestrator.Sql.{Database}
use async_task_orchestrator.Utils.Calm.{CalmDatabase}
use async_task_orchestrator.Queue.Message.{Delivery, Publishing}
use async_task_orchestrator.Queue.Channel.{Channel}
use async_task_orchestrator.Task.Model.{TaskPayload}
use async_task_orchestrator.Worker.Loop.{Call, republishing}
use async_task_orchestrator.Worker.Settle.{CalmChannel}
use async_task_orchestrator.Worker.Pool.{
  Pool, Step, accepts, delivers, handles, disconnects, Reach, start, later,
}
use async_task_orchestrator.Worker.Pool.Effects.{
  Effect, finishes, requeues, drops, copies, copies_and_drops, copies_and_requeues,
  handle_delivery-Effect, copy_of,
}

abbrev pub weight : Text → Text → ℕ
weight x b = if text_eq x b then 1 else 0

-- How many of the items have the body `b`.
abbrev pub count : {A : Type 0} → (A → Text) → Text → List A → ℕ
count f b [] = 0
count f b (x ∷ xs) = weight (f x) b + count f b xs

count-append :
    {A : Type 0} (f : A → Text) (b : Text) (xs ys : List A)
    → count f b (xs ++ ys) ≡ count f b xs + count f b ys
count-append f b [] ys = omega arith
count-append f b (x ∷ xs) ys = omega (arith, count-append f b xs ys)

count-middle :
    {A : Type 0} (f : A → Text) (b : Text) (xs ys zs : List A) (x : A)
    → zs ≡ xs ++ x ∷ ys
    → count f b zs ≡ weight (f x) b + count f b (xs ++ ys)
count-middle f b xs ys zs x e =
    ap (count f b) e ∙ omega (arith, count-append f b xs (x ∷ ys), count-append f b xs ys)

abbrev pub body_of : Publishing → Text
body_of p = p.body

abbrev pub body_taken : ℕ × Delivery → Text
body_taken (i, d) = d.body

abbrev pub body_in : Delivery → Text
body_in d = d.body

-- How many messages were sent, how many are open, that is, wait or are with a worker, and how many
-- are finished and dropped.
pub record Counts : Type 0 where
  pub sent : ℕ
  pub waiting : ℕ
  pub finished : ℕ
  pub dropped : ℕ

-- What such a queue may do: nothing, take a message, end an open one, repeat one that is open, or
-- drop one that it has repeated.
pub data Move (v w : Counts) : Type 0 where
  stays :
      w.sent ≡ v.sent
      → w.waiting ≡ v.waiting
      → w.finished ≡ v.finished
      → w.dropped ≡ v.dropped
      → Move v w
  takes :
      w.sent ≡ v.sent + 1
      → w.waiting ≡ v.waiting + 1
      → w.finished ≡ v.finished
      → w.dropped ≡ v.dropped
      → Move v w
  ends_well :
      w.sent ≡ v.sent
      → w.waiting + 1 ≡ v.waiting
      → w.finished ≡ v.finished + 1
      → w.dropped ≡ v.dropped
      → Move v w
  ends_badly :
      w.sent ≡ v.sent
      → w.waiting + 1 ≡ v.waiting
      → w.finished ≡ v.finished
      → w.dropped ≡ v.dropped + 1
      → Move v w
  repeats :
      1 ≤ v.waiting
      → w.sent ≡ v.sent
      → w.waiting ≡ v.waiting + 1
      → w.finished ≡ v.finished
      → w.dropped ≡ v.dropped
      → Move v w
  drops_repeated :
      1 ≤ v.waiting
      → w.sent ≡ v.sent
      → w.waiting ≡ v.waiting
      → w.finished ≡ v.finished
      → w.dropped ≡ v.dropped + 1
      → Move v w

abbrev pub none_sent : Counts
none_sent = record { sent = 0; waiting = 0; finished = 0; dropped = 0 }

-- The states that such a queue gets to.
pub data Spec : Counts → Type 0 where
  begins : Spec none_sent
  moves : {v w : Counts} → Spec v → Move v w → Spec w

abbrev pub view : Text → Pool → Counts
view b s = record {
  sent = count body_of b s.accepted;
  waiting = count body_of b s.ready + count body_taken b s.taken;
  finished = count body_in b s.finished;
  dropped = count body_in b s.dropped;
}

-- Whatever such a queue does, as many messages at least as were sent are open or have an end.
pub Spec-kept : (v : Counts) → Spec v → v.sent ≤ v.waiting + v.finished + v.dropped
Spec-kept v begins = omega arith
Spec-kept w (moves {v = v} h (stays a b c d)) = omega (arith, Spec-kept v h)
Spec-kept w (moves {v = v} h (takes a b c d)) = omega (arith, Spec-kept v h)
Spec-kept w (moves {v = v} h (ends_well a b c d)) = omega (arith, Spec-kept v h)
Spec-kept w (moves {v = v} h (ends_badly a b c d)) = omega (arith, Spec-kept v h)
Spec-kept w (moves {v = v} h (repeats o a b c d)) = omega (arith, Spec-kept v h)
Spec-kept w (moves {v = v} h (drops_repeated o a b c d)) = omega (arith, Spec-kept v h)

module _ (b : Text) where
  -- The delivery is open in `v`, and the pool `s` is without it.
  abbrev Without : Delivery → Pool → Counts → Type 0
  Without d s v =
      (v.sent ≡ (view b s).sent)
      × (v.waiting ≡ weight d.body b + (view b s).waiting)
      × (v.finished ≡ (view b s).finished)
      × (v.dropped ≡ (view b s).dropped)

  weight-cases : (x : Text) → (weight x b ≡ 0) ⊎ (weight x b ≡ 1)
  weight-cases x = elim (Bool-cases (text_eq x b)) [
    | inl same ↦ inr (rw same refl)
    | inr other ↦ inl (rw other refl)
  ]

  Effect-Move :
      (d : Delivery) (calls : List Call) (s t : Pool) (v : Counts)
      → Effect d calls s t
      → Without d s v
      → Move v (view b t)
  unfolding republishing
  Effect-Move d calls s t v (finishes e) (h, i, j, k) = elim (weight-cases d.body) [
    | inl other ↦ stays (omega arith) (omega arith) (omega arith) (omega arith)
    | inr same ↦ ends_well (omega arith) (omega arith) (omega arith) (omega arith)
  ]
  Effect-Move d calls s t v requeues (h, i, j, k) =
      stays (omega arith) (omega arith) (omega arith) (omega arith)
  Effect-Move d calls s t v drops (h, i, j, k) = elim (weight-cases d.body) [
    | inl other ↦ stays (omega arith) (omega arith) (omega arith) (omega arith)
    | inr same ↦ ends_badly (omega arith) (omega arith) (omega arith) (omega arith)
  ]
  Effect-Move d calls s t v (copies low) (h, i, j, k) =
      let ready = count-append body_of b s.ready (copy_of d ∷ []) in
      stays (omega arith) (omega arith) (omega arith) (omega arith)
  Effect-Move d calls s t v (copies_and_drops low) (h, i, j, k) =
      let ready = count-append body_of b s.ready (copy_of d ∷ []) in
      elim (weight-cases d.body) [
        | inl other ↦ stays (omega arith) (omega arith) (omega arith) (omega arith)
        | inr same ↦
            drops_repeated (omega arith) (omega arith) (omega arith) (omega arith) (omega arith)
      ]
  Effect-Move d calls s t v (copies_and_requeues low) (h, i, j, k) =
      let ready = count-append body_of b s.ready (copy_of d ∷ []) in
      elim (weight-cases d.body) [
        | inl other ↦ stays (omega arith) (omega arith) (omega arith) (omega arith)
        | inr same ↦ repeats (omega arith) (omega arith) (omega arith) (omega arith) (omega arith)
      ]

  module _ (q : Database) (c : Channel) (calm : CalmDatabase q) (calm_channel : CalmChannel c)
      (unmarshal : Text → Option TaskPayload) where
    -- If no call panics, what the pool does is what a queue that delivers at least once may do.
    Step-Move : (s t : Pool) → Step q c unmarshal s t → Move (view b s) (view b t)
    Step-Move s t (accepts p e) =
        let ready = count-append body_of b s.ready (p ∷ []) in
        elim (weight-cases p.body) [
          | inl other ↦ stays (omega arith) (omega arith) (omega arith) (omega arith)
          | inr same ↦ takes (omega arith) (omega arith) (omega arith) (omega arith)
        ]
    Step-Move s t (delivers before after p i tag e w f) =
        let ready = count-middle body_of b before after s.ready p e in
        stays (omega arith) (omega arith) (omega arith) (omega arith)
    Step-Move s t (handles before after i d w calls copied settled e h) =
        let s' = record s { taken = before ++ after } in
        Effect-Move d calls s' t (view b s)
          (handle_delivery-Effect q c calm calm_channel unmarshal i d w calls copied settled s' h)
          (refl, omega (arith, count-middle body_taken b before after s.taken (i, d) e), refl, refl)
    Step-Move s t (disconnects before after i d e) =
        let taken = count-middle body_taken b before after s.taken (i, d) e in
        stays (omega arith) (omega arith) (omega arith) (omega arith)

    pub Reach-Spec : (s : Pool) → Reach q c unmarshal s → Spec (view b s)
    Reach-Spec s start = begins
    Reach-Spec s (later {s = s'} r st) = moves (Reach-Spec s' r) (Step-Move s' s st)

-- ===== src/Worker/Pool/Origins.antt =====
-- Where the messages of the pool of internal/worker/worker.go come from, and how often they are
-- copied.
use async_task_orchestrator.Prelude.{
  ℕ, ◌+◌, ◌≤◌, pos, leb_ℤ, ◌+ℤ◌, false, ◌≡◌, refl, ap, ◌∙◌, arith, Option, none, List, ◌∷◌, ◌++◌,
  Text, All, All-append, All-middle, All-map,
}
use mathlib.Core.Path.{subst}
use mathlib.Core.List.{Memᴰ}
use async_task_orchestrator.Sql.{Database}
use async_task_orchestrator.Utils.Calm.{CalmDatabase}
use async_task_orchestrator.Queue.Message.{Delivery, Publishing, Headers}
use async_task_orchestrator.Queue.Channel.{Channel}
use async_task_orchestrator.Task.Model.{TaskPayload}
use async_task_orchestrator.Worker.Loop.{Call, republishing, retry_count}
use async_task_orchestrator.Worker.Settle.{CalmChannel}
use async_task_orchestrator.Worker.Retry.{retry_count-republishing}
use async_task_orchestrator.Worker.Pool.{
  Pool, Step, accepts, delivers, handles, disconnects, Reach, start, later,
}
use async_task_orchestrator.Worker.Pool.Effects.{
  Effect, finishes, requeues, drops, copies, copies_and_drops, copies_and_requeues, copy_of,
  handle_delivery-Effect,
}

-- A message with this body and these headers is one of those sent, or a copy of one that was made
-- by three retries at most.
pub record Known (sent : List Publishing) (body : Text) (headers : Option Headers) : Type 0 where
  pub origin : Publishing
  pub is_sent : Memᴰ origin sent
  pub same : body ≡ origin.body
  pub retries : ℕ
  pub few : retries ≤ 3
  pub counted : retry_count headers ≡ pos retries

abbrev pub KnownMessage : List Publishing → Publishing → Type 0
KnownMessage sent p = Known sent p.body p.headers

abbrev pub KnownDelivery : List Publishing → Delivery → Type 0
KnownDelivery sent d = Known sent d.body d.headers

abbrev pub KnownTaken : List Publishing → ℕ × Delivery → Type 0
KnownTaken sent (i, d) = KnownDelivery sent d

abbrev pub Origins : Pool → Type 0
Origins s =
    All (KnownMessage s.accepted) s.ready
    × All (KnownTaken s.accepted) s.taken
    × All (KnownDelivery s.accepted) s.finished
    × All (KnownDelivery s.accepted) s.dropped

Known-more :
    (p : Publishing) (sent : List Publishing) (body : Text) (headers : Option Headers)
    → Known sent body headers
    → Known (p ∷ sent) body headers
Known-more p sent body headers k = record {
  origin = k.origin;
  is_sent = Memᴰ.tail k.is_sent;
  same = k.same;
  retries = k.retries;
  few = k.few;
  counted = k.counted;
}

Known-new : (p : Publishing) (sent : List Publishing) → p.headers ≡ none → KnownMessage (p ∷ sent) p
Known-new p sent e = record {
  origin = p;
  is_sent = Memᴰ.head refl;
  same = refl;
  retries = 0;
  few = omega arith;
  counted = ap retry_count e ∙ (unfold retry_count in refl);
}

Known-copy_of :
    (sent : List Publishing) (d : Delivery)
    → leb_ℤ (pos 3) (retry_count d.headers) ≡ false
    → KnownDelivery sent d
    → KnownMessage sent (copy_of d)
Known-copy_of sent d low k =
    let small : leb_ℤ (pos 3) (pos k.retries) ≡ false = rw k.counted at low in
    let one_more : pos k.retries +ℤ pos 1 ≡ pos (k.retries + 1) = ground arith in
    record {
      origin = k.origin;
      is_sent = k.is_sent;
      same = (unfold republishing in k.same);
      retries = k.retries + 1;
      few = ground arith;
      counted =
          retry_count-republishing d (retry_count d.headers +ℤ pos 1)
          ∙ ap (λ x. x +ℤ pos 1) k.counted
          ∙ one_more;
    }

Effect-Origins :
    (d : Delivery) (calls : List Call) (s t : Pool)
    → Effect d calls s t
    → KnownDelivery s.accepted d
    → Origins s
    → Origins t
Effect-Origins d calls s t (finishes e) k (r, n, f, g) = (r, n, (k, f), g)
Effect-Origins d calls s t requeues k (r, n, f, g) = ((k, r), n, f, g)
Effect-Origins d calls s t drops k (r, n, f, g) = (r, n, f, (k, g))
Effect-Origins d calls s t (copies low) k (r, n, f, g) =
    (All-append _ s.ready _ r (Known-copy_of s.accepted d low k, tt), n, f, g)
Effect-Origins d calls s t (copies_and_drops low) k (r, n, f, g) =
    (All-append _ s.ready _ r (Known-copy_of s.accepted d low k, tt), n, f, (k, g))
Effect-Origins d calls s t (copies_and_requeues low) k (r, n, f, g) =
    ((k, All-append _ s.ready _ r (Known-copy_of s.accepted d low k, tt)), n, f, g)

module _ (q : Database) (c : Channel) (calm : CalmDatabase q) (calm_channel : CalmChannel c)
    (unmarshal : Text → Option TaskPayload) where
  Step-Origins : (s t : Pool) → Step q c unmarshal s t → Origins s → Origins t
  Step-Origins s t (accepts p e) (r, n, f, g) =
      let more = λ (body : Text) (headers : Option Headers). Known-more p s.accepted body headers in
      (
        All-append _ s.ready _ (All-map _ _ (λ m. more m.body m.headers) s.ready r)
            (Known-new p s.accepted e, tt),
        All-map _ _ (λ (i, d). more d.body d.headers) s.taken n,
        All-map _ _ (λ d. more d.body d.headers) s.finished f,
        All-map _ _ (λ d. more d.body d.headers) s.dropped g,
      )
  Step-Origins s t (delivers before after p i tag e w free) (r, n, f, g) =
      let (k, r') = All-middle _ before after p (subst (All (KnownMessage s.accepted)) e r) in
      (r', (k, n), f, g)
  Step-Origins s t (handles before after i d w calls copied settled e h') (r, n, f, g) =
      let (k, n') = All-middle _ before after (i, d) (subst (All (KnownTaken s.accepted)) e n) in
      let s' = record s { taken = before ++ after } in
      Effect-Origins d calls s' t
        (handle_delivery-Effect q c calm calm_channel unmarshal i d w calls copied settled s' h') k
        (r, n', f, g)
  Step-Origins s t (disconnects before after i d e) (r, n, f, g) =
      let (k, n') = All-middle _ before after (i, d) (subst (All (KnownTaken s.accepted)) e n) in
      ((k, r), n', f, g)

  -- If no call panics, every message in the pool, wherever it is, has the body of a message that
  -- the API has sent, and carries a retry count of at most three.
  pub Reach-Origins : (s : Pool) → Reach q c unmarshal s → Origins s
  Reach-Origins s start = (tt, tt, tt, tt)
  Reach-Origins s (later {s = s'} r st) = Step-Origins s' s st (Reach-Origins s' r)

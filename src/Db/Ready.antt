-- ===== src/Db/Ready.antt =====
-- How Init of internal/db/postgres.go ends.
use mathlib.Core.Path.{subst}
use async_task_orchestrator.Retry.{Ends, retried, retried-Ends, none_yet}
use async_task_orchestrator.Prelude.{ℕ, zero, suc, ◌+◌, String, ◌≡◌, refl, sym, ap, ◌∙◌, inl, inr}
use async_task_orchestrator.Go.{
  pure, raise, panic, err, handle, after, ◌>>=◌, Outcome, Outcome-cases, ok, M, ignoring,
  ok-injective,
}
use async_task_orchestrator.Config.{DbConfig}
use async_task_orchestrator.Db.{Pool, dsn, connect, init, handle, pure}

module _ {S : Type 0} (p : Pool S) where
  -- The last call before was a Ping of the pool, which it answered.
  pub record Pinged (db : p.Handle) (now : S) : Type 0 where
    pub before : S
    pub answered : (p.ping db before).0 ≡ ok tt
    pub after : now ≡ (p.ping db before).1

  ignoring-then :
      {A : Type 0} (m : M S (Unit {0})) (n : M S A) (s : S) (x : A)
      → (ignoring m n s).0 ≡ ok x
      → ((n (m s).1).0 ≡ ok x) × ((ignoring m n s).1 ≡ (n (m s).1).1)
  ignoring-then m n s x h = elim (Outcome-cases (m s).0) [
    | inl (u, e) ↦ (rw e at h, rw e refl)
    | inr (inl (x', e)) ↦ (rw e at h, rw e refl)
    | inr (inr (x', e)) ↦ absurd (cc (rw e at h))
  ]

  connect-Pinged :
      (source : String) (left i : ℕ) (s : S) (db : p.Handle)
      → (connect p source left i s).0 ≡ ok db
      → Pinged db (connect p source left i s).1
  unfolding connect
  connect-Pinged source zero i s db h = absurd cc
  connect-Pinged source (suc left) i s db h = elim (Outcome-cases (p.open_pool source s).0) [
    | inl (d, opened) ↦
        let s' = (p.open_pool source s).1 in
        elim (Outcome-cases (p.ping d s').0) [
          | inl (u, answered) ↦
              let e : d ≡ db = ok-injective (rw (opened, answered) at h) in
              rw (sym e)
                (record { before = s'; answered = answered; after = rw (opened, answered) refl })
          | inr (inl (x, failed)) ↦
              let again : M S p.Handle = λ t. connect p source left (i + 1) (p.sleep (i + 1) t) in
              let (result, last) =
                ignoring-then (p.close d) again (p.ping d s').1 db (rw (opened, failed) at h) in
              rw (opened, failed, last)
                (connect-Pinged source left (i + 1) (p.sleep (i + 1) (p.close d (p.ping d s').1).1)
                  db result)
          | inr (inr (x, failed)) ↦ absurd (cc (rw (opened, failed) at h))
        ]
    | inr (inl (x, failed)) ↦ rw failed (
        connect-Pinged source left (i + 1) (p.sleep (i + 1) (p.open_pool source s).1) db
          (rw failed at h))
    | inr (inr (x, failed)) ↦ absurd (cc (rw failed at h))
  ]

  -- When Init returns a pool, its last call before setting the limits was a Ping of that pool, and
  -- the pool answered it.
  pub init-Pinged :
      (cfg : DbConfig) (s : S) (db : p.Handle)
      → (init p cfg s).0 ≡ ok db
      → (s' : S) × Pinged db s' × ((init p cfg s).1 ≡ p.set_limits db 100 10 1800 300 s')
  unfolding init
  init-Pinged cfg s db h = elim (Outcome-cases (connect p (dsn cfg) 5 0 s).0) [
    | inl (d, done) ↦
        let e : d ≡ db = ok-injective (rw done at h) in
        (
          (connect p (dsn cfg) 5 0 s).1,
          connect-Pinged (dsn cfg) 5 0 s db (done ∙ ap ok e),
          rw (done, e) refl,
        )
    | inr (inl (x, failed)) ↦ absurd (cc (rw failed at h))
    | inr (inr (x, failed)) ↦ absurd (cc (rw failed at h))
  ]

  -- One attempt: the pool is opened and pinged, and closed again if the Ping fails.
  unfoldable pub opened : String → M S p.Handle
  opened source = p.open_pool source >>= λ db.
      handle (p.ping db) (λ _. pure db) (λ e. ignoring (p.close db) (raise e))

  connect-retried :
      (source : String) (left i : ℕ) (s : S)
      → connect p source left i s
        ≡ retried (opened source) p.sleep "Failed to connect to database" left i s
  unfolding connect retried opened
  connect-retried source zero i s = refl
  connect-retried source (suc left) i s = elim (Outcome-cases (p.open_pool source s).0) [
    | inl (d, made) ↦
        let s' = (p.open_pool source s).1 in
        elim (Outcome-cases (p.ping d s').0) [
          | inl (u, answered) ↦ rw (made, answered) refl
          | inr (inl (x, failed)) ↦
              let t = (p.ping d s').1 in
              elim (Outcome-cases (p.close d t).0) [
                | inl (u, closed) ↦
                    rw (made, failed, closed)
                      (connect-retried source left (i + 1) (p.sleep (i + 1) (p.close d t).1))
                | inr (inl (y, closed)) ↦
                    rw (made, failed, closed)
                      (connect-retried source left (i + 1) (p.sleep (i + 1) (p.close d t).1))
                | inr (inr (y, closed)) ↦ rw (made, failed, closed) refl
              ]
          | inr (inr (x, failed)) ↦ rw (made, failed) refl
        ]
    | inr (inl (x, failed)) ↦
        rw failed (connect-retried source left (i + 1) (p.sleep (i + 1) (p.open_pool source s).1))
    | inr (inr (x, failed)) ↦ rw failed refl
  ]

  connect-Ends :
      (source : String) (s : S)
      → Ends (opened source) p.sleep 5 "Failed to connect to database" s (connect p source 5 0 s)
  connect-Ends source s =
      subst (Ends (opened source) p.sleep 5 "Failed to connect to database" s)
        (sym (connect-retried source 5 0 s))
        (retried-Ends (opened source) p.sleep "Failed to connect to database" 5 5 0 s s refl
          none_yet)

  -- The limits are set when there is a pool.
  abbrev pub limited : Outcome p.Handle × S → Outcome p.Handle × S
  limited (ok db, s) = (ok db, p.set_limits db 100 10 1800 300 s)
  limited (err e, s) = (err e, s)
  limited (panic x, s) = (panic x, s)

  with_limits :
      (x : Outcome p.Handle × S)
      → after x.0 (λ db s. (ok db, p.set_limits db 100 10 1800 300 s)) raise x.1 ≡ limited x
  with_limits (ok db, s) = refl
  with_limits (err e, s) = refl
  with_limits (panic x, s) = refl

  -- Init always ends: with what the first of five attempts gave that reported no error, and then the
  -- limits of the pool are set, or, after five errors, with a panic. An attempt is to open the pool
  -- and to ping it, and a pool that does not answer is closed. After the error of attempt `k` it
  -- sleeps `k` seconds.
  pub init-Ends :
      (cfg : DbConfig) (s : S)
      → (x : Outcome p.Handle × S) × Ends
          (opened (dsn cfg))
          p.sleep
          5
          "Failed to connect to database"
          s
          x
        × (init p cfg s ≡ limited x)
  unfolding init
  init-Ends cfg s =
      let x = connect p (dsn cfg) 5 0 s in (x, connect-Ends (dsn cfg) s, with_limits x)

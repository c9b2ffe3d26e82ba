-- ===== src/Task/Reads.antt =====
-- How a read of internal/task/service.go ends: what it returns, and what it leaves in the cache.
use mathlib.Core.Path.{subst}
use async_task_orchestrator.Prelude.{
  ◌≡◌, ◌≢◌, ◌⊎◌, inl, inr, refl, sym, ap, ◌∙◌, Option, none, some, Text, Option-cases,
}
use async_task_orchestrator.Go.{
  M, Outcome, Outcome-cases, ok, err, panic, ok-injective, after, pure, ignoring,
}
use async_task_orchestrator.Sql.{Database, Laws}
use async_task_orchestrator.Cache.{RedisClient, task_cache_ttl, cache_get, cache_set}
use async_task_orchestrator.Queue.Connect.{Amqp}
use async_task_orchestrator.Task.Service.{App, on_redis}
use async_task_orchestrator.Task.Caching.{RedisLaws}
use async_task_orchestrator.Task.Through.{load, cached, through}

module _ (q : Database) (r : RedisClient) {B : Type 0} (a : Amqp B) (laws : Laws q)
    (redis_laws : RedisLaws r) {A : Type 0} (key : Text) (marshal : A → Outcome Text) where
  open laws use {committed}
  open redis_laws use {value}

  -- The tables are as before, no other entry of the cache has changed, and what is returned and
  -- what is put into the entry of the key has the property `P`.
  pub record Read (P : A → Type 0) (s : App q r a) (x : Outcome A × App q r a) : Type 0 where
    pub same_db : committed x.1.db ≡ committed s.db
    pub others : (j : Text) → key ≢ j → value j x.1.redis ≡ value j s.redis
    pub entry :
        (value key x.1.redis ≡ value key s.redis)
        ⊎ ((t : A) × (y : Text) × P t × (marshal t ≡ ok y) × (value key x.1.redis ≡ some y))
    pub found : (t : A) → x.0 ≡ ok t → P t

  cache_set-others :
      (m : Outcome Text) (s : r.Store) (j : Text)
      → key ≢ j
      → value j (cache_set r key m s).1 ≡ value j s
  unfolding cache_set
  cache_set-others (ok x) s j ne = redis_laws.put_others key j x task_cache_ttl s ne
  cache_set-others (err e) s j ne = refl
  cache_set-others (panic p) s j ne = refl

  cache_set-entry :
      (m : Outcome Text) (s : r.Store)
      → (value key (cache_set r key m s).1 ≡ value key s)
        ⊎ ((y : Text) × (m ≡ ok y) × (value key (cache_set r key m s).1 ≡ some y))
  unfolding cache_set
  cache_set-entry (ok x) s = elim (redis_laws.put_at key x task_cache_ttl s) [
    | inl same ↦ inl same
    | inr new ↦ inr (x, refl, new)
  ]
  cache_set-entry (err e) s = inl refl
  cache_set-entry (panic p) s = inl refl

  stored-found :
      (t : A) (o : Outcome (Unit {0})) (s : App q r a) (t' : A)
      → (after {S = App q r a} o (λ _. pure t) (λ _. pure t) s).0 ≡ ok t'
      → t ≡ t'
  stored-found t (ok x) s t' h = ok-injective h
  stored-found t (err e) s t' h = ok-injective h
  stored-found t (panic p) s t' h = cc

  stored-state :
      (t : A) (o : Outcome (Unit {0})) (s : App q r a)
      → (after {S = App q r a} o (λ _. pure t) (λ _. pure t) s).1 ≡ s
  stored-state t (ok x) s = refl
  stored-state t (err e) s = refl
  stored-state t (panic p) s = refl

  module _ (P : A → Type 0) where
    -- Only the clients' own states have changed so far.
    Read-from :
        (s s' : App q r a) (x : Outcome A × App q r a)
        → committed s'.db ≡ committed s.db
        → ((j : Text) → value j s'.redis ≡ value j s.redis)
        → Read P s' x
        → Read P s x
    Read-from s s' x d e h = record {
      same_db = h.same_db ∙ d;
      others = λ j ne. h.others j ne ∙ e j;
      entry = elim h.entry [
        | inl same ↦ inl (same ∙ e key)
        | inr (t, y, good, m, v) ↦ inr (t, y, good, m, v)
      ];
      found = h.found;
    }

    unchanged-Read : (s : App q r a) (o : Outcome A) → ((t : A) → o ≡ ok t → P t) → Read P s (o, s)
    unchanged-Read s o h = record {
      same_db = refl;
      others = λ j ne. refl;
      entry = inl refl;
      found = h;
    }

    stored-Read :
        (t : A) (s : App q r a)
        → P t
        → Read P s (ignoring (on_redis q r a (cache_set r key (marshal t))) (pure t) s)
    stored-Read t s good =
        let m = marshal t in
        let (o, redis) = cache_set r key m s.redis in
        let same = stored-state t o (record s { redis = redis }) in
        record {
          same_db = ap (λ x. committed x.db) same;
          others = λ j ne. ap (λ x. value j x.redis) same ∙ cache_set-others m s.redis j ne;
          entry = elim (cache_set-entry m s.redis) [
            | inl e ↦ inl (ap (λ x. value key x.redis) same ∙ e)
            | inr (y, k, e) ↦ inr (t, y, good, k, ap (λ x. value key x.redis) same ∙ e)
          ];
          found = λ t' k. subst P (stored-found t o (record s { redis = redis }) t' k) good;
        }

    module _ (unmarshal : Text → Option A) (query : M q.Db A)
        (keeps : (d : q.Db) → committed (query d).1 ≡ committed d) where
      load-Read :
          (s : App q r a)
          → ((t : A) → (query s.db).0 ≡ ok t → P t)
          → Read P s (load q r a key marshal unmarshal query s)
      load-Read s finds =
          let s' = record s { db = (query s.db).1 } in
          elim (Outcome-cases (query s.db).0) [
            | inl (t, e) ↦
                rw e (Read-from s s' _ (keeps s.db) (λ j. refl) (stored-Read t s' (finds t e)))
            | inr (inl (x, e)) ↦
                rw e (
                  Read-from s s' _ (keeps s.db) (λ j. refl) (unchanged-Read s' (err x) (λ t h. cc)))
            | inr (inr (p, e)) ↦ rw e (
                Read-from s s' _ (keeps s.db) (λ j. refl) (unchanged-Read s' (panic p) (λ t h. cc)))
          ]

      cached-Read :
          (o : Option Text) (s : App q r a)
          → ((t : A) → (query s.db).0 ≡ ok t → P t)
          → ((y : Text) (t : A) → o ≡ some y → unmarshal y ≡ some t → P t)
          → Read P s (cached q r a key marshal unmarshal query o s)
      cached-Read none s finds h = load-Read s finds
      cached-Read (some y) s finds h = elim (Option-cases (unmarshal y)) [
        | inl bad ↦ rw bad (load-Read s finds)
        | inr (t, good) ↦
            rw good (unchanged-Read s (ok t) (λ t' e. subst P (ok-injective e) (h y t refl good)))
      ]

      -- A read through the cache, if what the query finds has the property, and so has what the
      -- entry of the key holds.
      pub through-Read :
          (s : App q r a)
          → ((t : A) → (query s.db).0 ≡ ok t → P t)
          → ((y : Text) (t : A) → value key s.redis ≡ some y → unmarshal y ≡ some t → P t)
          → Read P s (through q r a key marshal unmarshal query s)
      unfolding cache_get
      through-Read s finds held =
          let s' = record s { redis = (r.get key s.redis).1 } in
          let keeps_all : (j : Text) → value j s'.redis ≡ value j s.redis =
            λ j. redis_laws.get_keeps key j s.redis in
          elim (Outcome-cases (r.get key s.redis).0) [
            | inl (o, e) ↦ rw e (
                Read-from s s' _ refl keeps_all (
                  cached-Read o s' finds
                    (λ y t h k. held y t (sym (redis_laws.get_value key s.redis o e) ∙ h) k)))
            | inr (inl (x, e)) ↦ rw e (Read-from s s' _ refl keeps_all (load-Read s' finds))
            | inr (inr (p, e)) ↦
                rw e (Read-from s s' _ refl keeps_all (unchanged-Read s' (panic p) (λ t h. cc)))
          ]

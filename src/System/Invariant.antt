-- ===== src/System/Invariant.antt =====
-- What stays true of the tables and of the cache over time.
use async_task_orchestrator.Task.Controller.{get_task_handler, get_tasks_by_user}
use mathlib.Core.Path.{subst}
use async_task_orchestrator.Prelude.{
  Option-cases, ℕ, ℤ, ◌≡◌, inl, inr, refl, sym, ap, ◌∙◌, Option, [], Text,
}
use async_task_orchestrator.Sql.{Database, Laws}
use async_task_orchestrator.Sql.Tables.{Task}
use async_task_orchestrator.Cache.{RedisClient}
use async_task_orchestrator.Http.{Context}
use async_task_orchestrator.Queue.Message.{Delivery}
use async_task_orchestrator.Queue.Channel.{Channel}
use async_task_orchestrator.Queue.Connect.{Amqp}
use async_task_orchestrator.Handler.{Moment}
use async_task_orchestrator.Handler.Setup.{Libraries}
use async_task_orchestrator.Task.Model.{TaskPayload}
use async_task_orchestrator.Task.Service.{App}
use async_task_orchestrator.Task.Caching.{RedisLaws, JsonLaws, Cached, Cached-map}
use async_task_orchestrator.Task.Entries.{get_task-Read, get_tasks-Read, Read-Cached, list-Cached}
use async_task_orchestrator.Task.Grows.{create_task_handler_grows}
use async_task_orchestrator.User.Grows.{register_joins, login-keeps}
use async_task_orchestrator.User.Controller.{refresh_token_handler}
use async_task_orchestrator.Worker.Loop.{World}
use async_task_orchestrator.Worker.Touched.Rounds.{handle_delivery-Touched}
use async_task_orchestrator.Worker.Touched.Statuses.{unread}
use async_task_orchestrator.System.Tables.{Sound, Grown-Sound, Joined-Sound, Touched-Sound}
use async_task_orchestrator.System.Owners.{
  Owned, row-Owned, Touched-Owned, Grown-Owned, Joined-Owned,
}
use async_task_orchestrator.System.Keeps.{
  get_task_handler_keeps, get_tasks_by_user_keeps, create_task_handler-redis,
}
use async_task_orchestrator.System.History.{
  Endpoint, register, login, refresh, create_task, get_task, get_tasks, Fades, served, after_round,
  Step, request, round, meanwhile, Later, at_once, next, Empty, History,
}

module _ (q : Database) (r : RedisClient) {B : Type 0} (a : Amqp B) (l : Libraries)
    (jwt_secret : Text) (conn : a.Connection) (c : Channel)
    (unmarshal : Text → Option TaskPayload) where
  module _ (laws : Laws q) (redis_laws : RedisLaws r) where
    open laws use {committed}
    open redis_laws use {value}

    -- The tables are sound, a cached task is that of a row, and a cached list of a user holds tasks
    -- of that user.
    pub record Fine (s : App q r a) : Type 0 where
      pub sound : Sound (committed s.db)
      pub cached : Cached r l.json redis_laws (Owned (committed s.db)) s.redis

    -- From one state to a later one: the later one is fine, and every task has kept its row.
    pub record Carried (s t : App q r a) : Type 0 where
      pub fine : Fine t
      pub kept : (id : ℤ) (x : Task) → Owned (committed s.db) id x → Owned (committed t.db) id x

    Carried-refl : (s : App q r a) → Fine s → Carried s s
    Carried-refl s h = record { fine = h; kept = λ id x o. o }

    pub Empty-Fine :
        (s : App q r a) → Empty q r a l jwt_secret conn c unmarshal laws redis_laws s → Fine s
    Empty-Fine s h = record {
      sound = subst Sound (sym h.no_row) (tt, tt, tt);
      cached = record {
        of_task = λ id x t v u. let n = h.no_task id in absurd cc;
        of_user = λ id x ts v u. let n = h.no_list id in absurd cc;
      };
    }

    -- The tables are as before.
    read-Carried :
        (s t : App q r a)
        → Fine s
        → committed t.db ≡ committed s.db
        → Cached r l.json redis_laws (Owned (committed s.db)) t.redis
        → Carried s t
    read-Carried s t h same cached = record {
      fine = record {
        sound = subst Sound (sym same) h.sound;
        cached = subst (λ d. Cached r l.json redis_laws (Owned d) t.redis) (sym same) cached;
      };
      kept = λ id x. subst (λ d. Owned d id x) (sym same);
    }

    meanwhile-Carried :
        (s t : App q r a)
        → Fine s
        → committed t.db ≡ committed s.db
        → Fades r redis_laws s.redis t.redis
        → Carried s t
    meanwhile-Carried s t h same fades = read-Carried s t h same (record {
      of_task = λ id x y v u. elim (fades.of_task id) [
        | inl gone ↦ absurd cc
        | inr kept ↦ h.cached.of_task id x y (sym kept ∙ v) u
      ];
      of_user = λ id x ys v u. elim (fades.of_user id) [
        | inl gone ↦ absurd cc
        | inr kept ↦ h.cached.of_user id x ys (sym kept ∙ v) u
      ];
    })

    -- The tables have changed, and the cache has not.
    write-Carried :
        (s t : App q r a)
        → Fine s
        → t.redis ≡ s.redis
        → Sound (committed t.db)
        → ((id : ℤ) (x : Task) → Owned (committed s.db) id x → Owned (committed t.db) id x)
        → Carried s t
    write-Carried s t h same sound owned = record {
      fine = record {
        sound = sound;
        cached = subst (Cached r l.json redis_laws (Owned (committed t.db))) (sym same) (
            Cached-map r l.json redis_laws (Owned (committed s.db)) (Owned (committed t.db)) s.redis
              owned h.cached);
      };
      kept = owned;
    }

    round-Carried :
        (id : ℕ) (msg : Delivery) (chan : c.Chan) (s : App q r a)
        → Fine s
        → Carried s (after_round q r a l jwt_secret conn c unmarshal id msg chan s)
    round-Carried id msg chan s h =
        let w : World q c = record { db = s.db; chan = chan; calls = [] } in
        elim (Option-cases (unmarshal msg.body)) [
          | inl failed ↦
              read-Carried s _ h (ap committed (unread q laws c unmarshal id msg w failed)) h.cached
          | inr (payload, read) ↦
              let touched = handle_delivery-Touched q laws c unmarshal id msg payload w read in
              write-Carried s _ h refl (Touched-Sound payload.id _ _ touched h.sound)
                (λ i t. Touched-Owned payload.id _ _ i t touched)
        ]

    module _ (json_laws : JsonLaws l.json) where
      get_task-Carried :
          (ctx : Context) (s : App q r a)
          → Fine s
          → Carried s (get_task_handler q r a l.json ctx s).1
      get_task-Carried ctx s h =
          get_task_handler_keeps q r a l.json (Carried s) ctx s (Carried-refl s h) (λ id.
            let P = Owned (committed s.db) in
            let read =
              get_task-Read q r a l.json laws redis_laws json_laws P id s
                (row-Owned (committed s.db) id) h.cached in
            read-Carried s _ h read.same_db
              (Read-Cached q r a l.json laws redis_laws json_laws P id s _ h.cached read))

      get_tasks-Carried :
          (ctx : Context) (s : App q r a)
          → Fine s
          → Carried s (get_tasks_by_user q r a l.json ctx s).1
      get_tasks-Carried ctx s h =
          get_tasks_by_user_keeps q r a l.json (Carried s) ctx s (Carried-refl s h) (λ id.
            let P = Owned (committed s.db) in
            let read = get_tasks-Read q r a l.json laws redis_laws json_laws P id s h.cached in
            read-Carried s _ h read.same_db
              (list-Cached q r a l.json laws redis_laws json_laws P id s _ h.cached read))

      request-Carried :
          (e : Endpoint) (m : Moment) (ctx : Context) (s : App q r a)
          → Fine s
          → Carried s (served q r a l jwt_secret conn c unmarshal e m ctx s).1
      unfolding served refresh_token_handler
      request-Carried register m ctx s h =
          let joined = register_joins q l.bcrypt laws l.bind_credentials m.salt ctx s.db in
          write-Carried s _ h refl (Joined-Sound _ _ _ joined h.sound)
            (λ id t. Joined-Owned _ _ _ id t joined)
      request-Carried login m ctx s h =
          let same =
            login-keeps q l.bcrypt laws l.bind_credentials l.jwt m.first_made_at m.second_made_at
              jwt_secret ctx s.db in
          read-Carried s _ h same h.cached
      request-Carried refresh m ctx s h = Carried-refl s h
      request-Carried create_task m ctx s h =
          let grown = create_task_handler_grows q r a laws conn l.is_print l.bind_task_type ctx s in
          write-Carried s _ h
            (create_task_handler-redis q r a conn l.is_print l.bind_task_type ctx s)
            (Grown-Sound _ _ grown h.sound) (λ id t. Grown-Owned _ _ id t grown)
      request-Carried get_task m ctx s h = get_task-Carried ctx s h
      request-Carried get_tasks m ctx s h = get_tasks-Carried ctx s h

      pub Step-Carried :
          (s t : App q r a)
          → Step q r a l jwt_secret conn c unmarshal laws redis_laws s t
          → Fine s
          → Carried s t
      Step-Carried s t (request e m ctx) h = request-Carried e m ctx s h
      Step-Carried s t (round id msg chan) h = round-Carried id msg chan s h
      Step-Carried s t (meanwhile u same fades) h = meanwhile-Carried s t h same fades

      pub Later-Carried :
          (s t : App q r a)
          → Later q r a l jwt_secret conn c unmarshal laws redis_laws s t
          → Fine s
          → Carried s t
      Later-Carried s t at_once h = Carried-refl s h
      Later-Carried s u (next {t = t} before step) h =
          let first = Later-Carried s t before h in
          let second = Step-Carried t u step first.fine in
          record { fine = second.fine; kept = λ id x o. second.kept id x (first.kept id x o) }

      pub History-Fine :
          (s : App q r a) → History q r a l jwt_secret conn c unmarshal laws redis_laws s → Fine s
      History-Fine s h = (Later-Carried h.start s h.since (Empty-Fine h.start h.empty)).fine

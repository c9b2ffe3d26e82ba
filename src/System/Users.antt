-- ===== src/System/Users.antt =====
-- Where the users of internal/user come from.
use async_task_orchestrator.Queue.Message.{Delivery}
use async_task_orchestrator.Prelude.{
  Option-cases, ℕ, String, ◌≡◌, ◌⊎◌, inl, inr, refl, ap, ◌∙◌, Option, List, [], ◌∷◌, ◌++◌, Text,
}
use async_task_orchestrator.Sql.{Database, Laws}
use async_task_orchestrator.Sql.Tables.{User, Content, inserted}
use async_task_orchestrator.Cache.{RedisClient}
use async_task_orchestrator.Http.{Context}
use async_task_orchestrator.Queue.Channel.{Channel}
use async_task_orchestrator.Queue.Connect.{Amqp}
use async_task_orchestrator.Handler.{Moment}
use async_task_orchestrator.Handler.Setup.{Libraries}
use async_task_orchestrator.Task.Model.{TaskPayload}
use async_task_orchestrator.Task.Service.{App}
use async_task_orchestrator.Task.Controller.{get_task_handler, get_tasks_by_user}
use async_task_orchestrator.Task.Caching.{RedisLaws, JsonLaws}
use async_task_orchestrator.Task.Entries.{get_task-Read, get_tasks-Read}
use async_task_orchestrator.Task.Grows.{Grown, create_task_handler_grows}
use async_task_orchestrator.User.Grows.{Joined, Requested, register_joins, login-keeps}
use async_task_orchestrator.User.Controller.{refresh_token_handler}
use async_task_orchestrator.Worker.Loop.{World}
use async_task_orchestrator.Worker.Touched.Rounds.{handle_delivery-Touched}
use async_task_orchestrator.Worker.Touched.Statuses.{unread}
use async_task_orchestrator.System.Owners.{Owned, row-Owned}
use async_task_orchestrator.System.Keeps.{get_task_handler_keeps, get_tasks_by_user_keeps}
use async_task_orchestrator.System.History.{
  after_round, Endpoint, register, refresh, create_task, get_task, get_tasks, served, Step, request,
  round, meanwhile, Later, at_once, next, History,
}
use async_task_orchestrator.System.History as Past
use async_task_orchestrator.System.Invariant.{Fine}

Grown-users : (before now : Content) → Grown "PENDING" before now → now.users ≡ before.users
Grown-users before now (inl same) = ap (λ c. c.users) same
Grown-users before now (inr (key, time, user_id, task_type, fresh, stored)) =
    ap (λ c. c.users) stored ∙ (unfold inserted in refl)

-- One more user, with what was given.
abbrev pub Added : (String → String → Type 0) → List User → List User → Type 0
Added Given before now = (u : User) × Given u.username u.password × (now ≡ before ++ u ∷ [])

Joined-users :
    (Given : String → String → Type 0) (before now : Content)
    → Joined Given before now
    → (now.users ≡ before.users) ⊎ Added Given before.users now.users
Joined-users Given before now (inl same) = inl (ap (λ c. c.users) same)
Joined-users Given before now (inr (id, time, username, hash, given, n, i, stored)) = inr (
  record { id = id; username = username; password = hash; created_at = time },
  given,
  ap (λ c. c.users) stored ∙ (unfold inserted in refl),
)

module _ (q : Database) (r : RedisClient) {B : Type 0} (a : Amqp B) (l : Libraries)
    (jwt_secret : Text) (conn : a.Connection) (c : Channel) (unmarshal : Text → Option TaskPayload)
    (laws : Laws q) (redis_laws : RedisLaws r) where
  open laws use {committed}

  -- Between two states, a request to register has given the name, and a password with that hash.
  pub record Asked (s t : App q r a) (username hash : String) : Type 0 where
    pub at : App q r a
    pub moment : Moment
    pub ctx : Context
    pub before : Later q r a l jwt_secret conn c unmarshal laws redis_laws s at
    pub after :
        Later q r a l jwt_secret conn c unmarshal laws redis_laws
          (served q r a l jwt_secret conn c unmarshal register moment ctx at).1
          t
    pub requested : Requested l.bcrypt moment.salt (l.bind_credentials ctx.body) username hash

  abbrev pub AskedFor : App q r a → App q r a → User → Type 0
  AskedFor s t u = Asked s t u.username u.password

  pub Asked-next :
      (s t u : App q r a)
      → Step q r a l jwt_secret conn c unmarshal laws redis_laws t u
      → (x : User) → AskedFor s t x
      → AskedFor s u x
  Asked-next s t u step x h = record {
    at = h.at;
    moment = h.moment;
    ctx = h.ctx;
    before = h.before;
    after = next h.after step;
    requested = h.requested;
  }

  -- The users are as before.
  abbrev pub Same : App q r a → App q r a → Type 0
  Same s t = (committed t.db).users ≡ (committed s.db).users

  round-Same :
      (id : ℕ) (msg : Delivery) (chan : c.Chan) (s : App q r a)
      → Same s (after_round q r a l jwt_secret conn c unmarshal id msg chan s)
  round-Same id msg chan s =
      let w : World q c = record { db = s.db; chan = chan; calls = [] } in
      elim (Option-cases (unmarshal msg.body)) [
        | inl failed ↦ ap (λ d. (committed d).users) (unread q laws c unmarshal id msg w failed)
        | inr (payload, read) ↦ (handle_delivery-Touched q laws c unmarshal id msg payload w read).1
      ]

  module _ (json_laws : JsonLaws l.json) where
    get_task-Same :
        (ctx : Context) (s : App q r a)
        → Fine q r a l jwt_secret conn c unmarshal laws redis_laws s
        → Same s (get_task_handler q r a l.json ctx s).1
    get_task-Same ctx s h = get_task_handler_keeps q r a l.json (Same s) ctx s refl (λ id.
        ap (λ d. d.users)
          (get_task-Read q r a l.json laws redis_laws json_laws (Owned (committed s.db)) id s
            (row-Owned (committed s.db) id) h.cached).same_db)

    get_tasks-Same :
        (ctx : Context) (s : App q r a)
        → Fine q r a l jwt_secret conn c unmarshal laws redis_laws s
        → Same s (get_tasks_by_user q r a l.json ctx s).1
    get_tasks-Same ctx s h = get_tasks_by_user_keeps q r a l.json (Same s) ctx s refl (λ id.
        ap (λ d. d.users)
          (get_tasks-Read q r a l.json laws redis_laws json_laws (Owned (committed s.db)) id s
            h.cached).same_db)

    request-users :
        (s0 s : App q r a) (e : Endpoint) (m : Moment) (ctx : Context)
        → Later q r a l jwt_secret conn c unmarshal laws redis_laws s0 s
        → Fine q r a l jwt_secret conn c unmarshal laws redis_laws s
        → let t = (served q r a l jwt_secret conn c unmarshal e m ctx s).1 in
          Same s t ⊎ Added (Asked s0 t) (committed s.db).users (committed t.db).users
    unfolding served refresh_token_handler
    request-users s0 s register m ctx before h =
        elim (Joined-users _ _ _
          (register_joins q l.bcrypt laws l.bind_credentials m.salt ctx s.db)) [
            | inl same ↦ inl same
            | inr (u, given, added) ↦ inr (
              u,
              record {
                at = s;
                moment = m;
                ctx = ctx;
                before = before;
                after = at_once;
                requested = given;
              },
              added,
            )
          ]
    request-users s0 s Past.login m ctx before h = inl (
        ap (λ d. d.users)
          (login-keeps q l.bcrypt laws l.bind_credentials l.jwt m.first_made_at m.second_made_at
            jwt_secret ctx s.db))
    request-users s0 s refresh m ctx before h = inl refl
    request-users s0 s create_task m ctx before h = inl (
        Grown-users _ _
          (create_task_handler_grows q r a laws conn l.is_print l.bind_task_type ctx s))
    request-users s0 s get_task m ctx before h = inl (get_task-Same ctx s h)
    request-users s0 s get_tasks m ctx before h = inl (get_tasks-Same ctx s h)

    pub Step-users :
        (s0 s t : App q r a)
        → Later q r a l jwt_secret conn c unmarshal laws redis_laws s0 s
        → Step q r a l jwt_secret conn c unmarshal laws redis_laws s t
        → Fine q r a l jwt_secret conn c unmarshal laws redis_laws s
        → Same s t ⊎ Added (Asked s0 t) (committed s.db).users (committed t.db).users
    Step-users s0 s t before (request e m ctx) h = request-users s0 s e m ctx before h
    Step-users s0 s t before (round id msg chan) h = inl (round-Same id msg chan s)
    Step-users s0 s t before (meanwhile u same fades) h = inl (ap (λ d. d.users) same)

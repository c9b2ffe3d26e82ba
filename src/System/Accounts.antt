-- ===== src/System/Accounts.antt =====
-- Who logs in with internal/user.
use mathlib.Core.Path.{subst}
use async_task_orchestrator.Prelude.{
  some-injective, String, str_eq, eq_iff, Bool-cases, ◌≡◌, inl, inr, refl, sym, ap, ◌∙◌, arith,
  Option, some, List, [], ◌∷◌, Text, All, All-append, All-map,
}
use async_task_orchestrator.Go.{Outcome, Outcome-cases, ok, err, panic, ok-injective}
use async_task_orchestrator.Sql.{Database, Laws}
use async_task_orchestrator.Sql.Tables.{User, find_username}
use async_task_orchestrator.Cache.{RedisClient}
use async_task_orchestrator.Http.{Context, Response}
use async_task_orchestrator.Queue.Channel.{Channel}
use async_task_orchestrator.Queue.Connect.{Amqp}
use async_task_orchestrator.Auth.Jwt.{TokenPair}
use async_task_orchestrator.Handler.{Moment}
use async_task_orchestrator.Handler.Setup.{Libraries}
use async_task_orchestrator.Task.Model.{TaskPayload}
use async_task_orchestrator.Task.Service.{App}
use async_task_orchestrator.Task.Caching.{RedisLaws, JsonLaws}
use async_task_orchestrator.User.Login.{login_user_sound}
use async_task_orchestrator.User.Service.{login_user}
use async_task_orchestrator.User.Controller.{login_response, login_bound, login}
use async_task_orchestrator.System.History.{
  after_round, Endpoint, register, refresh, create_task, get_task, get_tasks, served, Step, request,
  round, meanwhile, Later, at_once, next, History,
}
use async_task_orchestrator.System.History as Past
use async_task_orchestrator.System.Users.{AskedFor, Asked-next, Step-users}
use async_task_orchestrator.System.Invariant.{Fine, Empty-Fine, Later-Carried}

found_name :
    (P : User → Type 0) (name : String) (us : List User) (u : User)
    → All P us
    → find_username name us ≡ some u
    → P u × (u.username ≡ name)
unfolding find_username
found_name P name [] u h f = absurd cc
found_name P name (v ∷ us) u (h, hs) f = elim (Bool-cases (str_eq v.username name)) [
  | inl same ↦
      let e : v ≡ u = some-injective (rw same at f) in
      (subst P e h, ap (λ x. x.username) (sym e) ∙ (eq_iff v.username name).0 same)
  | inr other ↦ found_name P name us u hs (rw other at f)
]

module _ (q : Database) (r : RedisClient) {B : Type 0} (a : Amqp B) (l : Libraries)
    (jwt_secret : Text) (conn : a.Connection) (c : Channel) (unmarshal : Text → Option TaskPayload)
    (laws : Laws q) (redis_laws : RedisLaws r) where
  open laws use {committed}

  module _ (json_laws : JsonLaws l.json) where
    Later-Asked :
        (s t : App q r a)
        → Fine q r a l jwt_secret conn c unmarshal laws redis_laws s
        → Later q r a l jwt_secret conn c unmarshal laws redis_laws s t
        → (committed s.db).users ≡ []
        → All
            (AskedFor q r a l jwt_secret conn c unmarshal laws redis_laws s t)
            (committed t.db).users
    Later-Asked s t fine at_once e =
        subst (All (AskedFor q r a l jwt_secret conn c unmarshal laws redis_laws s s)) (sym e) tt
    Later-Asked s u fine (next {t = t} before step) e =
        let fine' =
          (Later-Carried q r a l jwt_secret conn c unmarshal laws redis_laws json_laws s t before
            fine).fine in
        let all =
          All-map (AskedFor q r a l jwt_secret conn c unmarshal laws redis_laws s t)
            (AskedFor q r a l jwt_secret conn c unmarshal laws redis_laws s u)
            (Asked-next q r a l jwt_secret conn c unmarshal laws redis_laws s t u step)
            (committed t.db).users (Later-Asked s t fine before e) in
        elim (Step-users q r a l jwt_secret conn c unmarshal laws redis_laws json_laws s t u before
          step fine') [
            | inl same ↦
                subst (All (AskedFor q r a l jwt_secret conn c unmarshal laws redis_laws s u))
                  (sym same) all
            | inr (x, asked, added) ↦
                subst (All (AskedFor q r a l jwt_secret conn c unmarshal laws redis_laws s u))
                  (sym added)
                  (All-append (AskedFor q r a l jwt_secret conn c unmarshal laws redis_laws s u)
                    (committed t.db).users (x ∷ []) all (asked, tt))
          ]

    -- What an answer 200 of `POST /auth/login` stands for: at some time before, a request to
    -- register has given the same name, and a password whose hash compares with that of the login.
    pub record LoggedIn (s t : App q r a) (ctx : Context) (x : Response) : Type 0 where
      pub user : User
      pub password : String
      pub tokens : TokenPair
      pub login_with : l.bind_credentials ctx.body ≡ ok (user.username, password)
      pub same_password : l.bcrypt.compare user.password password ≡ ok tt
      pub answer : x ≡ login_response tokens
      pub asked : AskedFor q r a l jwt_secret conn c unmarshal laws redis_laws s t user

    logged_in :
        (s t : App q r a) (m : Moment) (ctx : Context) (o : Outcome (String × String))
        (x : Response)
        → All
            (AskedFor q r a l jwt_secret conn c unmarshal laws redis_laws s t)
            (committed t.db).users
        → l.bind_credentials ctx.body ≡ o
        → (login_bound q l.bcrypt l.bind_credentials l.jwt m.first_made_at m.second_made_at
            jwt_secret o t.db).0
          ≡ ok x
        → x.status ≡ 200
        → LoggedIn s t ctx x
    unfolding login_bound
    logged_in s t m ctx (ok (name, password)) x all bound h k =
        elim (Outcome-cases
          (login_user q l.bcrypt l.jwt m.first_made_at m.second_made_at name password jwt_secret
            t.db).0) [
              | inl (tokens, done) ↦
                  let (u, found, same, made) =
                    login_user_sound q l.bcrypt laws l.jwt jwt_secret m.first_made_at
                      m.second_made_at name password t.db tokens done in
                  let (asked, named) =
                    found_name (AskedFor q r a l jwt_secret conn c unmarshal laws redis_laws s t)
                      name _ u all found in
                  record {
                    user = u;
                    password = password;
                    tokens = tokens;
                    login_with = bound ∙ ap (λ n. ok (n, password)) (sym named);
                    same_password = same;
                    answer = sym (ok-injective (rw done at h));
                    asked = asked;
                  }
              | inr (inl (e, failed)) ↦ absurd (ground (arith, rw failed at h))
              | inr (inr (p, failed)) ↦ absurd (cc (rw failed at h))
            ]
    logged_in s t m ctx (err e) x all bound h k = absurd (ground arith)
    logged_in s t m ctx (panic p) x all bound h k = absurd cc

    -- At any time of a history from empty tables, `POST /auth/login` answers 200 only to a name
    -- with which a request to register came before, and to a password that compares with the hash
    -- that was made of the password of that request.
    pub History-LoggedIn :
        (t : App q r a) (m : Moment) (ctx : Context) (x : Response)
        → (h : History q r a l jwt_secret conn c unmarshal laws redis_laws t)
        → (served q r a l jwt_secret conn c unmarshal Past.login m ctx t).0 ≡ ok x
        → x.status ≡ 200
        → LoggedIn h.start t ctx x
    unfolding served login
    History-LoggedIn t m ctx x h e k =
        let fine = Empty-Fine q r a l jwt_secret conn c unmarshal laws redis_laws h.start h.empty in
        logged_in h.start t m ctx (l.bind_credentials ctx.body) x
          (Later-Asked h.start t fine h.since (ap (λ d. d.users) h.empty.no_row)) refl e k

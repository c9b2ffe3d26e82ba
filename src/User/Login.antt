-- ===== src/User/Login.antt =====
-- LoginUser of internal/user/service.go, and RefreshToken and Register of
-- internal/user/controller.go.
use async_task_orchestrator.Prelude.{
  some-injective, ℕ, ℤ, String, eq_iff, ◌≡◌, ◌≢◌, ◌⊎◌, inl, inr, refl, sym, ap, ◌∙◌, arith, none,
  some, List, [], ◌∷◌, ◌++◌, Text,
}
use async_task_orchestrator.Go.{text, expired_token, Outcome, Outcome-cases, ok, err, panic}
use async_task_orchestrator.Sql.{Database, Laws}
use async_task_orchestrator.Sql.Tables.{User, inserted, find_username}
use async_task_orchestrator.Http.{Context, Response, failure}
use async_task_orchestrator.Auth.Password.{Bcrypt, compare_password_hash}
use async_task_orchestrator.Auth.Jwt.{Jwt, TokenPair, generate_token_pair, refresh_token_pair}
use async_task_orchestrator.Auth.Tokens.{JwtLaws, refresh_token_pair-not_expired}
use async_task_orchestrator.User.Repository.{get_by_username}
use async_task_orchestrator.User.Service.{create_user, compared, login_user}
use async_task_orchestrator.User.Registration.{Registered, create_user_done}
use async_task_orchestrator.User.Controller.{
  is_expired_error, refresh_answer, refresh_bound, refresh_token_handler, register_bound, register,
  register_failure, is_duplicate,
}

find_username-new :
    (name : String) (us : List User) (u : User)
    → u.username ≡ name
    → find_username name us ≡ none
    → find_username name (us ++ u ∷ []) ≡ some u
unfolding find_username
find_username-new name [] u e h = ground (arith, eq_iff u.username name)
find_username-new name (v ∷ us) u e h = ground (arith, find_username-new name us u e)

module _ (q : Database) (b : Bcrypt) (laws : Laws q) (j : Jwt) (secret : Text) where
  open laws use {committed}

  -- LoginUser gives tokens only to a committed user whose stored hash compares with the password,
  -- and they are the tokens of that user.
  pub login_user_sound :
      (now now' : ℕ) (username password : String) (d : q.Db) (p : TokenPair)
      → (login_user q b j now now' username password secret d).0 ≡ ok p
      → (u : User) × (find_username username (committed d).users ≡ some u)
        × (b.compare u.password password ≡ ok tt)
        × (generate_token_pair j now now' u.id secret ≡ ok p)
  unfolding login_user compared get_by_username compare_password_hash
  login_user_sound now now' username password d p h =
      elim (Outcome-cases (q.user_by_username username d).0) [
        | inl (u, found) ↦ elim (Outcome-cases (b.compare u.password password)) [
          | inl (x, same) ↦
              (u, laws.user_by_username_found username d u found, same, rw (found, same) at h)
          | inr (inl (e, failed)) ↦ absurd (cc (rw (found, failed) at h))
          | inr (inr (x, failed)) ↦ absurd (cc (rw (found, failed) at h))
        ]
        | inr (inl (e, failed)) ↦ absurd (cc (rw failed at h))
        | inr (inr (x, failed)) ↦ absurd (cc (rw failed at h))
      ]

  Registered-row :
      (salt : ℕ) (username password : String) (d : q.Db) (id : ℤ) (now : q.Db)
      → (r : Registered q b laws salt username password d id now)
      → find_username username (committed now).users
        ≡ some (record { id = id; username = username; password = r.hash; created_at = r.time })
  unfolding inserted
  Registered-row salt username password d id now r =
      ap (λ c. find_username username c.users) r.stored
      ∙ find_username-new username (committed d).users _ refl r.name_free

  -- A user that CreateUser has registered can log in with the password of the registration, once
  -- the query of the name succeeds, and gets the tokens of the identity that was returned.
  pub create_user-login_user :
      (salt : ℕ) (username password : String) (d : q.Db) (id : ℤ) (now now' : ℕ) (u : User)
      → (create_user q b salt username password d).0 ≡ ok id
      → (q.user_by_username username (create_user q b salt username password d).1).0 ≡ ok u
      → (login_user q b j now now' username password secret
          (create_user q b salt username password d).1).0
        ≡ generate_token_pair j now now' id secret
  unfolding login_user compared get_by_username compare_password_hash
  create_user-login_user salt username password d id now now' u made found =
      let d' = (create_user q b salt username password d).1 in
      let r = create_user_done q b laws salt username password d id made in
      let e : u ≡ record { id = id; username = username; password = r.hash; created_at = r.time } =
        some-injective (
          sym (laws.user_by_username_found username d' u found)
          ∙ Registered-row salt username password d id d' r) in
      rw found (rw e (rw (b.compare_generate salt password r.hash r.hashed)))

module _ (q : Database) (b : Bcrypt) (laws : Laws q) where
  open laws use {committed}

  -- A well-formed registration of a name that the query finds is answered with 409, and nothing
  -- is stored.
  pub register_taken :
      (bind : Text → Outcome (String × String)) (salt : ℕ) (ctx : Context) (d : q.Db)
      (username password : String) (u : User)
      → bind ctx.body ≡ ok (username, password)
      → (q.user_by_username username d).0 ≡ ok u
      → ((register q b bind salt ctx d).0 ≡ ok (failure 409 "Username already exists"))
        × (committed (register q b bind salt ctx d).1 ≡ committed d)
  unfolding register register_bound create_user get_by_username register_failure is_duplicate text
  register_taken bind salt ctx d username password u bound found =
      (rw (bound, found) refl, rw (bound, found) (laws.user_by_username_keeps username d))

module _ (j : Jwt) (laws : JwtLaws j) (secret : Text) where
  refresh_answer-invalid :
      (r : Outcome TokenPair) (x : Response)
      → r ≢ err expired_token
      → refresh_answer r ≡ ok x
      → ((p : TokenPair) × (r ≡ ok p)) ⊎ (x ≡ failure 401 "Invalid refresh token")
  unfolding refresh_answer is_expired_error
  refresh_answer-invalid (ok p) x h k = inl (p, refl)
  refresh_answer-invalid (err e) x h k = ground arith
  refresh_answer-invalid (panic p) x h k = absurd cc

  -- For a well-formed request, the handler of `POST /auth/refresh` that gives no tokens says
  -- "Invalid refresh token", also where the token has expired: "Refresh token expired, please
  -- login again" is never said.
  pub refresh_token_handler_refuses :
      {S : Type 0} (bind : Text → Outcome Text) (at now now' : ℕ) (ctx : Context) (s : S) (t : Text)
      (x : Response)
      → bind ctx.body ≡ ok t
      → (refresh_token_handler bind j at now now' secret ctx s).0 ≡ ok x
      → ((p : TokenPair) × (refresh_token_pair j at now now' t secret ≡ ok p))
        ⊎ (x ≡ failure 401 "Invalid refresh token")
  unfolding refresh_token_handler refresh_bound
  refresh_token_handler_refuses bind at now now' ctx s t x bound h =
      refresh_answer-invalid (refresh_token_pair j at now now' t secret) x
        (refresh_token_pair-not_expired j laws secret at now now' t) (rw bound at h)

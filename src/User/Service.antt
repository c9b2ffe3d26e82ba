-- ===== src/User/Service.antt =====
-- internal/user/service.go
use async_task_orchestrator.Prelude.{ℕ, ℤ, String, Text}
use async_task_orchestrator.Go.{
  deferring, new, Outcome, ok, err, panic, M, pure, raise, throw, handle, ◌>>=◌,
}
use async_task_orchestrator.Sql.{Database}
use async_task_orchestrator.Sql.Tables.{User}
use async_task_orchestrator.Auth.Password.{Bcrypt, generate_password_hash, compare_password_hash}
use async_task_orchestrator.Auth.Jwt.{Jwt, TokenPair, generate_token_pair}
use async_task_orchestrator.User.Repository.{create, get_by_id, get_by_username}

module _ (q : Database) (b : Bcrypt) where
  unfoldable pub insert_in : q.Tx → String → String → M q.Db ℤ
  insert_in tx username hashed_password = do
    id ← create q tx username hashed_password
    x ← q.commit tx
    pure id

  unfoldable pub store_user : String → Outcome String → M q.Db ℤ
  store_user username (ok hashed_password) = do
    tx ← q.begin
    deferring (insert_in tx username hashed_password) (q.rollback tx)
  store_user username (err e) = raise (new "failed to hash password")
  store_user username (panic p) = throw p

  -- The salt is the randomness that bcrypt reads.
  unfoldable pub create_user : ℕ → String → String → M q.Db ℤ
  create_user salt username password =
      handle (get_by_username q username) (λ user. raise (new "username already exists"))
        (λ e. store_user username (generate_password_hash b salt password))

  module _ (j : Jwt) (now now' : ℕ) where
    unfoldable pub compared : User → Text → Outcome (Unit {0}) → M q.Db TokenPair
    compared user jwt_secret (ok x) s = (generate_token_pair j now now' user.id jwt_secret, s)
    compared user jwt_secret (err e) s = raise (new "invalid credentials") s
    compared user jwt_secret (panic p) s = throw p s

    unfoldable pub login_user : String → String → Text → M q.Db TokenPair
    login_user username password jwt_secret =
        handle (get_by_username q username)
          (λ user. compared user jwt_secret (compare_password_hash b user.password password))
          (λ e. raise (new "invalid credentials"))

  unfoldable pub get_user_by_id : ℤ → M q.Db User
  get_user_by_id id = get_by_id q id

  unfoldable pub get_user_by_username : String → M q.Db User
  get_user_by_username username = get_by_username q username

-- ===== src/User/Repository.antt =====
-- internal/user/repository.go
use async_task_orchestrator.Prelude.{◌==◌, ℤ, String, if◌then◌else◌}
use async_task_orchestrator.Go.{
  Error, new, wrap, invalid_token, expired_token, no_rows, pq_error, M, pure, raise, handle, ◌>>=◌,
}
use async_task_orchestrator.Sql.{Database}
use async_task_orchestrator.Sql.Tables.{User, insert_user, update_password}

-- `if errors.Is(err, sql.ErrNoRows) { return nil, errors.New("user not found") }; return nil, err`
unfoldable pub is_no_rows : Error → Error → Error
is_no_rows e no_rows = new "user not found"
is_no_rows e (wrap s e') = is_no_rows e e'
is_no_rows e (new s) = e
is_no_rows e invalid_token = e
is_no_rows e expired_token = e
is_no_rows e (pq_error c s) = e

module _ (q : Database) where
  open q use {Db, Tx, exec, insert, user_by_id, user_by_username}

  -- The code reads the name and the hash of its user.
  unfoldable pub create : Tx → String → String → M Db ℤ
  create tx username password = insert tx (insert_user username password)

  unfoldable pub get_by_id : ℤ → M Db User
  unfolding is_no_rows
  get_by_id id = handle (user_by_id id) pure (λ e. raise (is_no_rows e e))

  unfoldable pub get_by_username : String → M Db User
  unfolding is_no_rows
  get_by_username username = handle (user_by_username username) pure (λ e. raise (is_no_rows e e))

  unfoldable pub update_user_password : Tx → ℤ → String → M Db (Unit {0})
  update_user_password tx id hashed_password = do
    rows_affected ← exec tx (update_password hashed_password id)
    if rows_affected == 0 then raise (new "user not found") else pure tt

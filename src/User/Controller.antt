-- ===== src/User/Controller.antt =====
-- internal/user/controller.go. The binding of a body to the request's struct is a parameter.
use async_task_orchestrator.Prelude.{
  ℕ, ◌==◌, ℤ, String, str_eq, Bool, true, false, ◌&&◌, ◌||◌, [], ◌∷◌, Text, codes, if◌then◌else◌,
}
use Prim.Native.String.{◌++◌}
use async_task_orchestrator.Go.{
  Error, new, wrap, invalid_token, expired_token, no_rows, pq_error, text as message, Outcome, ok,
  err, panic, M, pure, throw, handle,
}
use async_task_orchestrator.Sql.{Database}
use async_task_orchestrator.Http.{Value, str, num, text, Response, failure, Handler}
use async_task_orchestrator.Auth.Password.{Bcrypt}
use async_task_orchestrator.Auth.Jwt.{Jwt, TokenPair, refresh_token_pair}
use async_task_orchestrator.User.Service.{create_user, login_user}

-- strings.HasPrefix(s, prefix) and strings.Contains(s, substr)
unfoldable pub has_prefix : Text → Text → Bool
has_prefix s [] = true
has_prefix [] (c ∷ p) = false
has_prefix (d ∷ s) (c ∷ p) = (c == d) && has_prefix s p

unfoldable pub contains : Text → Text → Bool
unfolding has_prefix
contains [] substr = has_prefix [] substr
contains (c ∷ s) substr = has_prefix (c ∷ s) substr || contains s substr

-- `pqErr, ok := err.(*pq.Error); ok && pqErr.Code == "23505"`
unfoldable pub is_unique_violation : Error → Bool
is_unique_violation (pq_error code s) = str_eq code "23505"
is_unique_violation (new s) = false
is_unique_violation (wrap s e) = false
is_unique_violation invalid_token = false
is_unique_violation expired_token = false
is_unique_violation no_rows = false

unfoldable pub is_duplicate : Error → Bool
unfolding contains is_unique_violation
is_duplicate e =
    str_eq (message e) "username already exists"
    || is_unique_violation e
    || contains (codes (message e)) (codes "duplicate key")
    || contains (codes (message e)) (codes "UNIQUE constraint")
    || contains (codes (message e)) (codes "already exists")

unfoldable pub register_failure : Error → Response
unfolding is_duplicate
register_failure e =
    if is_duplicate e
    then failure 409 "Username already exists"
    else failure 500 ("Failed to create user: " ++ message e)

abbrev pub registered_response : ℤ → Response
registered_response user_id = record {
  status = 201;
  body = ("message", str "User created successfully") ∷ ("user_id", num user_id) ∷ [];
}

abbrev pub expires_value : TokenPair → Value
expires_value tokens = num (ℤ.pos tokens.expires_in)

abbrev pub login_response : TokenPair → Response
login_response tokens = record {
  status = 200;
  body =
      ("access_token", text tokens.access)
      ∷ ("refresh_token", text tokens.refresh)
      ∷ ("expires_in", expires_value tokens)
      ∷ [];
}

abbrev pub refresh_response : TokenPair → Response
refresh_response tokens = record {
  status = 200;
  body =
      ("access_token", text tokens.access)
      ∷ ("refresh_token", text tokens.refresh)
      ∷ ("token_type", str "Bearer")
      ∷ ("expires_in", expires_value tokens)
      ∷ [];
}

module _ (q : Database) (b : Bcrypt) (bind_credentials : Text → Outcome (String × String)) where
  unfoldable pub register_bound : ℕ → Outcome (String × String) → M q.Db Response
  unfolding register_failure
  register_bound salt (ok (username, password)) =
      handle (create_user q b salt username password) (λ id. pure (registered_response id))
        (λ e. pure (register_failure e))
  register_bound salt (err e) = pure (failure 400 (message e))
  register_bound salt (panic p) = throw p

  unfoldable pub register : ℕ → Handler q.Db
  register salt ctx = register_bound salt (bind_credentials ctx.body)

  module _ (j : Jwt) (now now' : ℕ) (jwt_secret : Text) where
    unfoldable pub login_bound : Outcome (String × String) → M q.Db Response
    login_bound (ok (username, password)) =
        handle (login_user q b j now now' username password jwt_secret)
          (λ tokens. pure (login_response tokens)) (λ e. pure (failure 401 "Invalid credentials"))
    login_bound (err e) = pure (failure 400 "Invalid request body")
    login_bound (panic p) = throw p

    unfoldable pub login : Handler q.Db
    login ctx = login_bound (bind_credentials ctx.body)

-- `err == auth.ErrExpiredToken`
unfoldable pub is_expired_error : Error → Bool
is_expired_error expired_token = true
is_expired_error (new s) = false
is_expired_error (wrap s e) = false
is_expired_error invalid_token = false
is_expired_error no_rows = false
is_expired_error (pq_error c s) = false

-- The answer to what RefreshTokenPair returned.
unfoldable pub refresh_answer : Outcome TokenPair → Outcome Response
unfolding is_expired_error
refresh_answer (ok tokens) = ok (refresh_response tokens)
refresh_answer (err e) =
    if is_expired_error e
    then ok (failure 401 "Refresh token expired, please login again")
    else ok (failure 401 "Invalid refresh token")
refresh_answer (panic p) = panic p

module _ (bind_token : Text → Outcome Text) (j : Jwt) (checked_at now now' : ℕ)
    (jwt_secret : Text) where
  unfoldable pub refresh_bound : Outcome Text → Outcome Response
  refresh_bound (ok token) =
      refresh_answer (refresh_token_pair j checked_at now now' token jwt_secret)
  refresh_bound (err e) = ok (failure 400 "Invalid request body")
  refresh_bound (panic p) = panic p

  -- The handler touches no state.
  unfoldable pub refresh_token_handler : {S : Type 0} → Handler S
  refresh_token_handler ctx s = (refresh_bound (bind_token ctx.body), s)

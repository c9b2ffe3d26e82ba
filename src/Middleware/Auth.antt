-- ===== src/Middleware/Auth.antt =====
-- internal/middleware/jwt.go
use async_task_orchestrator.Prelude.{
  ℕ, ◌==◌, str_eq, Bool, true, false, List, [], ◌∷◌, if◌then◌else◌, Text, text_eq, codes,
}
use async_task_orchestrator.Go.{
  Error, wrap, new, invalid_token, expired_token, no_rows, pq_error, Outcome, ok, err, panic, pure,
  throw,
}
use async_task_orchestrator.Http.{int, set_key, failure, Middleware}
use async_task_orchestrator.Auth.Jwt.{Jwt, Claims, validate_token, access_token}
use async_task_orchestrator.Auth.Context.{user_id_key}

-- strings.Split(s, sep) for a separator of one character.
unfoldable pub cons_first : ℕ → List Text → List Text
cons_first c [] = (c ∷ []) ∷ []
cons_first c (p ∷ ps) = (c ∷ p) ∷ ps

unfoldable pub split : ℕ → Text → List Text
unfolding cons_first
split sep [] = [] ∷ []
split sep (c ∷ s) = let parts = split sep s in if c == sep then [] ∷ parts else cons_first c parts

-- `len(parts) != 2 || parts[0] != "Bearer"`, and otherwise parts[1]
unfoldable pub bearer : List Text → Outcome Text
bearer (scheme ∷ token ∷ []) =
    if text_eq scheme (codes "Bearer") then ok token else err (new "format")
bearer _ = err (new "format")

-- errors.Is(err, auth.ErrExpiredToken)
unfoldable pub is_expired : Error → Bool
is_expired expired_token = true
is_expired (wrap s e) = is_expired e
is_expired (new s) = false
is_expired invalid_token = false
is_expired no_rows = false
is_expired (pq_error c s) = false

module _ {S : Type 0} (j : Jwt) (now : ℕ) (secret : Text) where
  -- From the test of the token type on.
  unfoldable pub admit : Outcome Claims → Middleware S
  admit (err e) next ctx =
      if is_expired e
      then pure (failure 401 "Token expired")
      else pure (failure 401 "Invalid token")
  admit (panic p) next ctx = throw p
  admit (ok claims) next ctx =
      if str_eq claims.type access_token
      then next (set_key user_id_key (int claims.user_id) ctx)
      else pure (failure 401 "Invalid token type")

  unfoldable pub with_token : Outcome Text → Middleware S
  with_token (ok token_string) next ctx = admit (validate_token j now token_string secret) next ctx
  with_token (err e) next ctx =
      pure (failure 401 "Invalid authorization format. Use: Bearer <token>")
  with_token (panic p) next ctx = throw p

  unfoldable pub auth_middleware : Middleware S
  auth_middleware next ctx =
      if text_eq ctx.authorization []
      then pure (failure 401 "Authorization header required")
      else with_token (bearer (split 32 ctx.authorization)) next ctx

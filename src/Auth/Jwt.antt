-- ===== src/Auth/Jwt.antt =====
-- internal/auth/jwt.go: making and checking tokens. The library golang-jwt is not part of the
-- repository. Times are nanoseconds; a function that reads the clock takes the time that it reads.
use async_task_orchestrator.Prelude.{
  ℕ, ◌+◌, ◌*◌, ◌/◌, ℤ, String, str_eq, Bool, true, false, Option, none, some, Text, if◌then◌else◌,
}
use async_task_orchestrator.Go.{new, wrap, invalid_token, expired_token, Outcome, ok, err, panic}

abbrev pub second : ℕ
second = 1000000000

abbrev pub access_token : String
access_token = "access"

abbrev pub refresh_token : String
refresh_token = "refresh"

pub record Claims : Type 0 where
  pub user_id : ℤ
  pub type : String
  pub expires_at : ℕ
  pub issued_at : ℕ
  pub not_before : ℕ

pub record TokenPair : Type 0 where
  pub access : Text
  pub refresh : Text
  pub expires_in : ℕ

-- The signing method that a token's header names: an HMAC one or another.
pub data Method : Type 0 where
  hmac : Method
  other_method : Method

-- What jwt.ParseWithClaims returns: a token, with its claims if they are of the type *Claims and
-- with `token.Valid`; or an error, with `errors.Is(err, jwt.ErrTokenExpired)`.
pub data Parsed : Type 0 where
  token : Option Claims → Bool → Parsed
  failed : Bool → Parsed

-- golang-jwt. `parse` is given the token, the key function and the time.
pub record Jwt : Type 0 where
  pub numeric_date : ℕ → ℕ
  pub sign : Claims → Text → Outcome Text
  pub method : Text → Method
  pub parse : Text → (Method → Outcome Text) → ℕ → Parsed

abbrev pub and_then : {A B : Type 0} → Outcome A → (A → Outcome B) → Outcome B
and_then (ok a) f = f a
and_then (err e) f = err e
and_then (panic p) f = panic p

-- The key function: `if _, ok := token.Method.(*jwt.SigningMethodHMAC); !ok { … }`
unfoldable pub key_of : Text → Method → Outcome Text
key_of secret hmac = ok secret
key_of secret other_method = err invalid_token

unfoldable pub checked : Parsed → Outcome Claims
checked (failed true) = err expired_token
checked (failed false) = err invalid_token
checked (token (some claims) true) = ok claims
checked (token (some claims) false) = err invalid_token
checked (token none valid) = err invalid_token

-- `fmt.Errorf("invalid refresh token: %w", err)`
unfoldable pub wrapped : Outcome Claims → Outcome Claims
wrapped (ok claims) = ok claims
wrapped (err e) = err (wrap "invalid refresh token: " e)
wrapped (panic p) = panic p

module _ (j : Jwt) where
  -- The claims of generateToken.
  abbrev pub claims_for : ℕ → ℤ → String → ℕ → Claims
  claims_for now user_id token_type duration = record {
    user_id = user_id;
    type = token_type;
    expires_at = j.numeric_date (now + duration);
    issued_at = j.numeric_date now;
    not_before = j.numeric_date now;
  }

  unfoldable pub generate_token : ℕ → ℤ → String → ℕ → Text → Outcome Text
  generate_token now user_id token_type duration secret =
      j.sign (claims_for now user_id token_type duration) secret

  -- The clock is read once for each of the two tokens.
  unfoldable pub generate_token_pair : ℕ → ℕ → ℤ → Text → Outcome TokenPair
  generate_token_pair now now' user_id secret =
      and_then (generate_token now user_id access_token (15 * 60 * second) secret) λ access.
        and_then (generate_token now' user_id refresh_token (7 * 24 * 3600 * second) secret)
          λ refresh.
            ok (record {
              access = access;
              refresh = refresh;
              expires_in = 15 * 60 * second / second;
            })

  unfoldable pub validate_token : ℕ → Text → Text → Outcome Claims
  unfolding checked
  validate_token now token_string secret = checked (j.parse token_string (key_of secret) now)

  unfoldable pub refreshed : ℕ → ℕ → Text → Claims → Outcome TokenPair
  refreshed now now' secret claims =
      if str_eq claims.type refresh_token
      then generate_token_pair now now' claims.user_id secret
      else err (new "not a refresh token")

  unfoldable pub refresh_token_pair : ℕ → ℕ → ℕ → Text → Text → Outcome TokenPair
  unfolding wrapped refreshed
  refresh_token_pair checked_at now now' refresh_token_string secret =
      and_then (wrapped (validate_token checked_at refresh_token_string secret))
        (refreshed now now' secret)

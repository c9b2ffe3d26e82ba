-- ===== src/Auth/Tests.antt =====
-- Tokens of a library that keeps claims in the clear.
use async_task_orchestrator.Prelude.{◌*◌, ◌≤◌, ◌<◌, ◌≡◌, ◌≢◌, refl, pos, [], ◌∷◌, Text, arith}
use async_task_orchestrator.Go.{ok, err, expired_token}
use async_task_orchestrator.Auth.Jwt.{
  second, access_token, refresh_token, Claims, TokenPair, hmac, generate_token, generate_token_pair,
  validate_token, key_of, checked, refresh_token_pair, refreshed, wrapped,
}
use async_task_orchestrator.Auth.Tokens.{
  GoodFor, generate-validate, generate-expired, validate_sound, generate_token_pair-access,
  generate_token_pair-refresh, refresh_token_pair_sound, refresh_again,
  refresh_token_pair-not_expired,
}
use async_task_orchestrator.Samples.Signer.{clear, clear-JwtLaws}

abbrev secret : Text
secret = 1 ∷ 2 ∷ []

-- User 5, issued at 0.
abbrev access : Text
access = 0 ∷ 5 ∷ 0 ∷ 900 * second ∷ 0 ∷ 0 ∷ secret

abbrev refresh : Text
refresh = 0 ∷ 5 ∷ 1 ∷ 604800 * second ∷ 0 ∷ 0 ∷ secret

access_made : generate_token clear 0 (pos 5) access_token (15 * 60 * second) secret ≡ ok access
unfolding generate_token
access_made = refl

refresh_made :
    generate_token clear 0 (pos 5) refresh_token (7 * 24 * 3600 * second) secret ≡ ok refresh
unfolding generate_token
refresh_made = refl

abbrev pair : TokenPair
pair = record { access = access; refresh = refresh; expires_in = 900 }

pair_made : generate_token_pair clear 0 0 (pos 5) secret ≡ ok pair
unfolding generate_token_pair generate_token
pair_made = refl

generate-validate_test : GoodFor clear secret access (pos 5) access_token (899 * second)
generate-validate_test =
    generate-validate clear clear-JwtLaws secret 0 (pos 5) access_token (15 * 60 * second) access
      (899 * second) access_made (omega arith) (omega arith)

generate-expired_test : validate_token clear (900 * second) access secret ≡ err expired_token
generate-expired_test =
    generate-expired clear clear-JwtLaws secret 0 (pos 5) access_token (15 * 60 * second) access
      (900 * second) access_made (omega arith)

abbrev access_claims : Claims
access_claims = record {
  user_id = pos 5;
  type = access_token;
  expires_at = 900 * second;
  issued_at = 0;
  not_before = 0;
}

access_valid : validate_token clear second access secret ≡ ok access_claims
unfolding validate_token checked key_of
access_valid = refl

validate_sound_test : (clear.method access ≡ hmac) × (0 ≤ second) × (second < 900 * second)
validate_sound_test =
    validate_sound clear clear-JwtLaws secret second access access_claims access_valid

generate_token_pair-access_example :
    (pair.expires_in ≡ 900) × GoodFor clear secret access (pos 5) access_token (899 * second)
generate_token_pair-access_example =
    generate_token_pair-access clear clear-JwtLaws secret 0 0 (pos 5) pair (899 * second) pair_made
      (omega arith) (omega arith)

generate_token_pair-refresh_test :
    GoodFor clear secret refresh (pos 5) refresh_token (604799 * second)
generate_token_pair-refresh_test =
    generate_token_pair-refresh clear clear-JwtLaws secret 0 0 (pos 5) pair (604799 * second)
      pair_made (omega arith) (omega arith)

abbrev next_pair : TokenPair
next_pair = record {
  access = 0 ∷ 5 ∷ 0 ∷ 902 * second ∷ 2 * second ∷ 2 * second ∷ secret;
  refresh = 0 ∷ 5 ∷ 1 ∷ 604802 * second ∷ 2 * second ∷ 2 * second ∷ secret;
  expires_in = 900;
}

pair_refreshed :
    refresh_token_pair clear second (2 * second) (2 * second) refresh secret ≡ ok next_pair
unfolding refresh_token_pair validate_token checked key_of refreshed wrapped generate_token_pair
    generate_token
pair_refreshed = refl

refresh_token_pair_sound_example :
    (c : Claims) × (validate_token clear second refresh secret ≡ ok c)
    × (c.type ≡ refresh_token)
    × (generate_token_pair clear (2 * second) (2 * second) c.user_id secret ≡ ok next_pair)
refresh_token_pair_sound_example =
    refresh_token_pair_sound clear clear-JwtLaws secret second (2 * second) (2 * second) refresh
      next_pair pair_refreshed

refresh_again_example :
    refresh_token_pair clear second (2 * second) (2 * second) refresh secret
    ≡ generate_token_pair clear (2 * second) (2 * second) (pos 5) secret
refresh_again_example =
    refresh_again clear clear-JwtLaws secret 0 (pos 5) refresh second (2 * second) (2 * second)
      refresh_made (omega arith) (omega arith)

refresh_token_pair-not_expired_test :
    refresh_token_pair clear (604801 * second) second second refresh secret ≢ err expired_token
refresh_token_pair-not_expired_test =
    refresh_token_pair-not_expired clear clear-JwtLaws secret (604801 * second) second second
      refresh

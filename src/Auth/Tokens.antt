-- ===== src/Auth/Tokens.antt =====
-- What the tokens of internal/auth/jwt.go are worth, from the documented behaviour of golang-jwt.
use async_task_orchestrator.Prelude.{
  ap, ◌∙◌, ℕ, ◌+◌, ◌*◌, ◌/◌, ◌≤◌, ◌<◌, ℤ, String, eq_iff, true, false, ◌≡◌, ◌≢◌, refl, arith, none,
  some, Text, inl, inr,
}
use async_task_orchestrator.Auth.Jwt.{
  claims_for, second, access_token, refresh_token, Claims, TokenPair, Method, hmac, other_method,
  Parsed, token, failed, Jwt, generate_token, generate_token_pair, key_of, checked, validate_token,
  refreshed, refresh_token_pair,
}
use native.Mathlib.Nat.{le_trans}
use async_task_orchestrator.Go.{expired_token, Outcome, ok, err, Outcome-cases}

-- Documented behaviour of golang-jwt v5: dates are cut to seconds; a token that was signed with a
-- key parses with that key from `nbf` to before `exp`, and is an expired one from `exp` on; and a
-- token parses only in that time and with a key that the key function gave for its method. The
-- library cannot return the error variables of this program.
pub record JwtLaws (j : Jwt) : Type 0 where
  pub numeric_date_lem : (t : ℕ) → j.numeric_date t ≡ t / second * second
  pub parse_signed :
      (c : Claims) (key t : Text) (key_for : Method → Outcome Text) (now : ℕ)
      → j.sign c key ≡ ok t
      → key_for hmac ≡ ok key
      → c.not_before ≤ now
      → now < c.expires_at
      → j.parse t key_for now ≡ token (some c) true
  pub parse_expired :
      (c : Claims) (key t : Text) (key_for : Method → Outcome Text) (now : ℕ)
      → j.sign c key ≡ ok t
      → key_for hmac ≡ ok key
      → c.expires_at ≤ now
      → j.parse t key_for now ≡ failed true
  pub parse_checked :
      (c : Claims) (t : Text) (key_for : Method → Outcome Text) (now : ℕ)
      → j.parse t key_for now ≡ token (some c) true
      → (key : Text) × (key_for (j.method t) ≡ ok key) × (c.not_before ≤ now) × (now < c.expires_at)
  pub sign_own_errors : (c : Claims) (key : Text) → j.sign c key ≢ err expired_token

-- The token is good at this time, for this user, as this type.
pub record GoodFor (j : Jwt) (secret t : Text) (user_id : ℤ) (type : String) (now : ℕ)
    : Type 0 where
  pub claims : Claims
  pub accepted : validate_token j now t secret ≡ ok claims
  pub user : claims.user_id ≡ user_id
  pub kind : claims.type ≡ type

module _ (j : Jwt) (laws : JwtLaws j) (secret : Text) where
  date_le : (t : ℕ) → j.numeric_date t ≤ t
  date_le t = omega (arith, laws.numeric_date_lem t)

  date_after : (t u : ℕ) → t + second ≤ u → t < j.numeric_date u
  date_after t u h = omega (arith, laws.numeric_date_lem u)

  key_method : (m : Method) (key : Text) → key_of secret m ≡ ok key → m ≡ hmac
  unfolding key_of
  key_method hmac key h = refl
  key_method other_method key h = cc

  -- A generated token is accepted, with its user and its type, from when it was made to a second
  -- before its duration ends.
  pub generate-validate :
      (now : ℕ) (user_id : ℤ) (type : String) (duration : ℕ) (t : Text) (later : ℕ)
      → generate_token j now user_id type duration secret ≡ ok t
      → now ≤ later
      → later + second ≤ now + duration
      → GoodFor j secret t user_id type later
  unfolding generate_token validate_token checked key_of
  generate-validate now user_id type duration t later made h k = record {
    claims = claims_for j now user_id type duration;
    accepted = ap checked (
        laws.parse_signed _ secret t (key_of secret) later made refl (le_trans (date_le now) h)
          (date_after later _ k));
    user = refl;
    kind = refl;
  }

  -- Once its duration has passed, a generated token is refused as expired.
  pub generate-expired :
      (now : ℕ) (user_id : ℤ) (type : String) (duration : ℕ) (t : Text) (later : ℕ)
      → generate_token j now user_id type duration secret ≡ ok t
      → now + duration ≤ later
      → validate_token j later t secret ≡ err expired_token
  unfolding generate_token validate_token checked key_of
  generate-expired now user_id type duration t later made h = ap checked (
      laws.parse_expired (claims_for j now user_id type duration) secret t (key_of secret) later
        made refl (le_trans (date_le (now + duration)) h))

  checked-ok : (p : Parsed) (c : Claims) → checked p ≡ ok c → p ≡ token (some c) true
  unfolding checked
  checked-ok (failed true) c h = cc
  checked-ok (failed false) c h = cc
  checked-ok (token (some d) true) c h = ground arith
  checked-ok (token (some d) false) c h = cc
  checked-ok (token none v) c h = cc

  -- An accepted token names an HMAC method, and it is used in its time.
  pub validate_sound :
      (now : ℕ) (t : Text) (c : Claims)
      → validate_token j now t secret ≡ ok c
      → (j.method t ≡ hmac) × (c.not_before ≤ now) × (now < c.expires_at)
  unfolding validate_token key_of
  validate_sound now t c h =
      let (key, given, from, to) = laws.parse_checked c t (key_of secret) now (checked-ok _ c h) in
      (key_method (j.method t) key given, from, to)

  pair_parts :
      (now now' : ℕ) (user_id : ℤ) (p : TokenPair)
      → generate_token_pair j now now' user_id secret ≡ ok p
      → (generate_token j now user_id access_token (15 * 60 * second) secret ≡ ok p.access)
        × (generate_token j now' user_id refresh_token (7 * 24 * 3600 * second) secret
            ≡ ok p.refresh)
        × (p.expires_in ≡ 900)
  unfolding generate_token_pair
  pair_parts now now' user_id p h = ground arith

  -- The access token of a new pair is good for its user from when it was made to a second before
  -- the time that `expires_in` says has passed, and `expires_in` is fifteen minutes.
  pub generate_token_pair-access :
      (now now' : ℕ) (user_id : ℤ) (p : TokenPair) (later : ℕ)
      → generate_token_pair j now now' user_id secret ≡ ok p
      → now ≤ later
      → later + second ≤ now + p.expires_in * second
      → (p.expires_in ≡ 900) × GoodFor j secret p.access user_id access_token later
  generate_token_pair-access now now' user_id p later made h k =
      let (a, r, e) = pair_parts now now' user_id p made in
      (e, generate-validate now user_id access_token _ p.access later a h (omega arith))

  -- The refresh token of a new pair is good for its user from when it was made to a second before
  -- seven days have passed.
  pub generate_token_pair-refresh :
      (now now' : ℕ) (user_id : ℤ) (p : TokenPair) (later : ℕ)
      → generate_token_pair j now now' user_id secret ≡ ok p
      → now' ≤ later
      → later + second ≤ now' + 604800 * second
      → GoodFor j secret p.refresh user_id refresh_token later
  generate_token_pair-refresh now now' user_id p later made h k =
      let (a, r, e) = pair_parts now now' user_id p made in
      generate-validate now' user_id refresh_token _ p.refresh later r h (omega arith)

  refreshed-ok :
      (now now' : ℕ) (c : Claims) (p : TokenPair)
      → refreshed j now now' secret c ≡ ok p
      → (c.type ≡ refresh_token) × (generate_token_pair j now now' c.user_id secret ≡ ok p)
  unfolding refreshed
  refreshed-ok now now' c p h = ground (arith, eq_iff c.type refresh_token)

  refreshed-refresh :
      (now now' : ℕ) (c : Claims)
      → c.type ≡ refresh_token
      → refreshed j now now' secret c ≡ generate_token_pair j now now' c.user_id secret
  unfolding refreshed
  refreshed-refresh now now' c h = ground (arith, eq_iff c.type refresh_token)

  -- A refresh gives a new pair only for a token that is accepted and is a refresh token, and the
  -- pair is for the user of that token.
  pub refresh_token_pair_sound :
      (at now now' : ℕ) (t : Text) (p : TokenPair)
      → refresh_token_pair j at now now' t secret ≡ ok p
      → (c : Claims) × (validate_token j at t secret ≡ ok c)
        × (c.type ≡ refresh_token)
        × (generate_token_pair j now now' c.user_id secret ≡ ok p)
  unfolding refresh_token_pair
  refresh_token_pair_sound at now now' t p h = elim (Outcome-cases (validate_token j at t secret)) [
    | inl (c, e) ↦ let (k, g) = refreshed-ok now now' c p (rw e at h) in (c, e, k, g)
    | inr (inl (x, e)) ↦ absurd (ground arith)
    | inr (inr (x, e)) ↦ absurd (ground arith)
  ]

  -- A refresh token that has been used is not invalidated: until it expires every further use
  -- gives another pair for its user.
  pub refresh_again :
      (made_at : ℕ) (user_id : ℤ) (t : Text) (at now now' : ℕ)
      → generate_token j made_at user_id refresh_token (7 * 24 * 3600 * second) secret ≡ ok t
      → made_at ≤ at
      → at + second ≤ made_at + 604800 * second
      → refresh_token_pair j at now now' t secret ≡ generate_token_pair j now now' user_id secret
  unfolding refresh_token_pair
  refresh_again made_at user_id t at now now' made h k =
      let g = generate-validate made_at user_id refresh_token _ t at made h (omega arith) in
      rw (g.accepted) (
        refreshed-refresh now now' g.claims g.kind
        ∙ ap (λ u. generate_token_pair j now now' u secret) g.user)

  pair-not_expired :
      (now now' : ℕ) (user_id : ℤ)
      → generate_token_pair j now now' user_id secret ≢ err expired_token
  unfolding generate_token_pair generate_token
  pair-not_expired now now' user_id h = ground (
    arith,
    laws.sign_own_errors (claims_for j now user_id access_token (15 * 60 * second)) secret,
    laws.sign_own_errors (claims_for j now' user_id refresh_token (7 * 24 * 3600 * second)) secret,
  )

  -- RefreshTokenPair never returns the error `ErrExpiredToken` itself, not for an expired token
  -- either.
  pub refresh_token_pair-not_expired :
      (at now now' : ℕ) (t : Text) → refresh_token_pair j at now now' t secret ≢ err expired_token
  unfolding refresh_token_pair refreshed
  refresh_token_pair-not_expired at now now' t h =
      elim (Outcome-cases (validate_token j at t secret)) [
        | inl (c, e) ↦ ground (arith, pair-not_expired now now' c.user_id)
        | inr (inl (x, e)) ↦ ground arith
        | inr (inr (x, e)) ↦ ground arith
      ]

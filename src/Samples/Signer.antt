-- ===== src/Samples/Signer.antt =====
-- Tokens that carry their claims and their key in the clear, and hashes that are the password: they
-- meet the assumptions on golang-jwt and bcrypt, for the tests.
use async_task_orchestrator.Prelude.{
  ℕ, zero, suc, ◌*◌, ◌/◌, ◌≤◌, ◌<◌, ltb, leb, ℤ, pos, negsuc, String, str_eq, eq_iff, Bool-cases,
  true, false, ◌≡◌, refl, sym, ap, ◌∙◌, inl, inr, arith, some, [], ◌∷◌, if◌then◌else◌, Text,
  text_eq, text_eq_refl,
}
use async_task_orchestrator.Go.{new, Outcome, ok, err, panic}
use async_task_orchestrator.Auth.Password.{Bcrypt}
use async_task_orchestrator.Auth.Jwt.{
  second, access_token, refresh_token, Claims, Method, hmac, Parsed, token, failed, Jwt,
}
use async_task_orchestrator.Auth.Tokens.{JwtLaws}

abbrev type_of : ℕ → String
type_of zero = access_token
type_of (suc n) = refresh_token

abbrev sign_of : ℤ → ℕ
sign_of (pos n) = 0
sign_of (negsuc n) = 1

abbrev size_of : ℤ → ℕ
size_of (pos n) = n
size_of (negsuc n) = n

abbrev int_of : ℕ → ℕ → ℤ
int_of zero n = pos n
int_of (suc k) n = negsuc n

int_of-back : (i : ℤ) → int_of (sign_of i) (size_of i) ≡ i
int_of-back (pos n) = refl
int_of-back (negsuc n) = refl

abbrev encode : ℕ → Claims → Text → Text
encode kind c key =
    sign_of c.user_id ∷ size_of c.user_id ∷ kind ∷ c.expires_at ∷ c.issued_at ∷ c.not_before ∷ key

abbrev key_in : Outcome Text → Text → ℕ → Claims → Parsed
key_in (ok k) key now c =
    if text_eq k key
    then (if leb c.expires_at now
        then failed true
        else if ltb now c.not_before
        then failed false
        else token (some c) true)
    else failed false
key_in (err e) key now c = failed false
key_in (panic p) key now c = failed false

abbrev parse_clear : Text → (Method → Outcome Text) → ℕ → Parsed
parse_clear (s ∷ n ∷ kind ∷ exp ∷ iat ∷ nbf ∷ key) key_for now =
    key_in (key_for hmac) key now (record {
      user_id = int_of s n;
      type = type_of kind;
      expires_at = exp;
      issued_at = iat;
      not_before = nbf;
    })
parse_clear _ key_for now = failed false

abbrev sign_clear : Claims → Text → Outcome Text
sign_clear c key =
    if str_eq c.type access_token
    then ok (encode 0 c key)
    else if str_eq c.type refresh_token
    then ok (encode 1 c key)
    else err (new "type")

abbrev pub clear : Jwt
clear = record {
  numeric_date = λ t. t / second * second;
  sign = sign_clear;
  method = λ t. hmac;
  parse = parse_clear;
}

parse_encode :
    (kind : ℕ) (c : Claims) (key : Text) (key_for : Method → Outcome Text) (now : ℕ)
    → c.type ≡ type_of kind
    → parse_clear (encode kind c key) key_for now ≡ key_in (key_for hmac) key now c
parse_encode kind c key key_for now h =
    ap (key_in (key_for hmac) key now) (rw (int_of-back c.user_id, sym h))

signed_parse :
    (c : Claims) (key t : Text) (key_for : Method → Outcome Text) (now : ℕ)
    → sign_clear c key ≡ ok t
    → key_for hmac ≡ ok key
    → parse_clear t key_for now ≡ key_in (ok key) key now c
signed_parse c key t key_for now h k = elim (Bool-cases (str_eq c.type access_token)) [
  | inl access ↦
      let e : encode 0 c key ≡ t = cc (rw access at h) in
      rw (sym e) (parse_encode 0 c key key_for now ((eq_iff c.type access_token).0 access) ∙ (rw k))
  | inr other ↦ elim (Bool-cases (str_eq c.type refresh_token)) [
    | inl refresh ↦
        let e : encode 1 c key ≡ t = cc (rw (other, refresh) at h) in
        rw (sym e)
          (parse_encode 1 c key key_for now ((eq_iff c.type refresh_token).0 refresh) ∙ (rw k))
    | inr neither ↦ absurd (cc (rw (other, neither) at h))
  ]
]

key_in-valid :
    (c : Claims) (key : Text) (now : ℕ)
    → c.not_before ≤ now
    → now < c.expires_at
    → key_in (ok key) key now c ≡ token (some c) true
key_in-valid c key now h k = rw (text_eq_refl key) (ground arith)

key_in-expired :
    (c : Claims) (key : Text) (now : ℕ)
    → c.expires_at ≤ now
    → key_in (ok key) key now c ≡ failed true
key_in-expired c key now h = rw (text_eq_refl key) (ground arith)

key_in-checked :
    (r : Outcome Text) (key : Text) (now : ℕ) (c d : Claims)
    → key_in r key now c ≡ token (some d) true
    → (k : Text) × (r ≡ ok k) × (d.not_before ≤ now) × (now < d.expires_at)
key_in-checked (ok k) key now c d h = (k, refl, ground arith, ground arith)
key_in-checked (err e) key now c d h = absurd cc
key_in-checked (panic p) key now c d h = absurd cc

parse_clear-checked :
    (d : Claims) (t : Text) (key_for : Method → Outcome Text) (now : ℕ)
    → parse_clear t key_for now ≡ token (some d) true
    → (k : Text) × (key_for hmac ≡ ok k) × (d.not_before ≤ now) × (now < d.expires_at)
parse_clear-checked d (s ∷ n ∷ kind ∷ exp ∷ iat ∷ nbf ∷ key) key_for now h =
    key_in-checked (key_for hmac) key now _ d h
parse_clear-checked d [] key_for now h = absurd cc
parse_clear-checked d (a ∷ []) key_for now h = absurd cc
parse_clear-checked d (a ∷ b ∷ []) key_for now h = absurd cc
parse_clear-checked d (a ∷ b ∷ c ∷ []) key_for now h = absurd cc
parse_clear-checked d (a ∷ b ∷ c ∷ e ∷ []) key_for now h = absurd cc
parse_clear-checked d (a ∷ b ∷ c ∷ e ∷ f ∷ []) key_for now h = absurd cc

pub clear-JwtLaws : JwtLaws clear
clear-JwtLaws = record {
  numeric_date_lem = λ t. refl;
  parse_signed = λ c key t key_for now h k from to.
      signed_parse c key t key_for now h k ∙ key_in-valid c key now from to;
  parse_expired = λ c key t key_for now h k past.
      signed_parse c key t key_for now h k ∙ key_in-expired c key now past;
  parse_checked = parse_clear-checked;
  sign_own_errors = λ c key h. ground arith;
}

abbrev pub plain : Bcrypt
plain = record {
  generate = λ salt password. ok password;
  compare = λ hash password. if str_eq hash password then ok tt else err (new "mismatch");
  compare_generate = λ salt password hash h. ground (arith, eq_iff hash password);
}

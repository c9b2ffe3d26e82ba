-- ===== src/Middleware/Gate.antt =====
-- Who passes AuthMiddleware of internal/middleware/jwt.go, and as whom.
use async_task_orchestrator.Prelude.{
  some, none, ℤ, ==_iff, ℕ, ◌==◌, String, str_eq, eq_iff, true, false, ◌≡◌, ◌≢◌, ◌⊎◌, inl, inr,
  refl, ap, ◌∙◌, sym, arith, List, [], ◌∷◌, ◌++◌, Text, text_eq, text_eq→eq, codes, Bool-cases,
}
use async_task_orchestrator.Go.{ok-injective, Outcome, Outcome-cases, ok, err, panic, M}
use async_task_orchestrator.Http.{int, Context, set_key, failure, Handler, Response}
use async_task_orchestrator.Auth.Jwt.{
  Jwt, Claims, Parsed, token, failed, checked, validate_token, access_token,
}
use async_task_orchestrator.Auth.Context.{user_id_key}
use async_task_orchestrator.Middleware.Auth.{
  cons_first, split, bearer, is_expired, admit, with_token, auth_middleware,
}

abbrev pub NoSpace : Text → Type 0
NoSpace [] = Unit
NoSpace (c ∷ s) = (c ≢ 32) × NoSpace s

split-NoSpace : (s : Text) → NoSpace s → split 32 s ≡ s ∷ []
unfolding split
split-NoSpace [] h = refl
split-NoSpace (c ∷ s) (h, hs) = rw (split-NoSpace s hs) (ground arith)

split-append : (s t : Text) → NoSpace s → NoSpace t → split 32 (s ++ 32 ∷ t) ≡ s ∷ t ∷ []
unfolding split
split-append [] t h k = rw (split-NoSpace t k)
split-append (c ∷ s) t (h, hs) k = rw (split-append s t hs k) (ground arith)

-- The parts with a space between each two.
abbrev join : List Text → Text
join [] = []
join (p ∷ []) = p
join (p ∷ q ∷ ps) = p ++ 32 ∷ join (q ∷ ps)

join-cons_first : (c : ℕ) (ps : List Text) → join (cons_first c ps) ≡ c ∷ join ps
unfolding cons_first
join-cons_first c [] = refl
join-cons_first c (p ∷ []) = refl
join-cons_first c (p ∷ q ∷ ps) = refl

join-nil : (ps : List Text) → ps ≢ [] → join ([] ∷ ps) ≡ 32 ∷ join ps
join-nil [] h = absurd (h refl)
join-nil (p ∷ ps) h = refl

cons_first-ne-nil : (c : ℕ) (ps : List Text) → cons_first c ps ≢ []
unfolding cons_first
cons_first-ne-nil c [] h = cc
cons_first-ne-nil c (p ∷ ps) h = cc

split-ne-nil : (s : Text) → split 32 s ≢ []
unfolding split
split-ne-nil [] h = cc
split-ne-nil (c ∷ s) h = ground (arith, cons_first-ne-nil c (split 32 s))

join-split : (s : Text) → join (split 32 s) ≡ s
unfolding split
join-split [] = refl
join-split (c ∷ s) = elim (Bool-cases (c == 32)) [
  | inl space ↦
      rw space (join-nil (split 32 s) (split-ne-nil s) ∙ (rw (join-split s, (==_iff c 32).0 space)))
  | inr letter ↦ rw letter (join-cons_first c (split 32 s) ∙ ap (λ t. c ∷ t) (join-split s))
]

bearer-join :
    (parts : List Text) (t : Text) → bearer parts ≡ ok t → join parts ≡ codes "Bearer" ++ 32 ∷ t
unfolding bearer
bearer-join [] t e = cc
bearer-join (p ∷ []) t e = cc
bearer-join (p ∷ q ∷ []) t e = elim (Bool-cases (text_eq p (codes "Bearer"))) [
  | inl same ↦ rw (text_eq→eq p (codes "Bearer") same, ok-injective (rw same at e))
  | inr ne ↦ absurd (cc (rw ne at e))
]
bearer-join (p ∷ q ∷ r ∷ ps) t e = cc

-- A header that is taken apart is "Bearer", a space and the token.
bearer_sound :
    (header t : Text) → bearer (split 32 header) ≡ ok t → header ≡ codes "Bearer" ++ 32 ∷ t
bearer_sound header t h = sym (join-split header) ∙ bearer-join (split 32 header) t h

checked-no_panic : (x : Parsed) (p : String) → checked x ≢ panic p
unfolding checked
checked-no_panic (failed true) p h = cc
checked-no_panic (failed false) p h = cc
checked-no_panic (token (some c) true) p h = cc
checked-no_panic (token (some c) false) p h = cc
checked-no_panic (token none v) p h = cc

bearer-no_panic : (parts : List Text) (p : String) → bearer parts ≢ panic p
unfolding bearer
bearer-no_panic [] p h = cc
bearer-no_panic (a ∷ []) p h = cc
bearer-no_panic (a ∷ b ∷ []) p h = ground arith
bearer-no_panic (a ∷ b ∷ c ∷ r) p h = cc

module _ (j : Jwt) (now : ℕ) (secret : Text) {S : Type 0} (next : Handler S) (ctx : Context) where
  -- The request carries a valid access token of a user.
  pub record Authenticated : Type 0 where
    pub token : Text
    pub claims : Claims
    pub header : ctx.authorization ≡ codes "Bearer" ++ 32 ∷ token
    pub valid : validate_token j now token secret ≡ ok claims
    pub access : claims.type ≡ access_token

  -- A request that carries a valid access token with no space in it goes on with its user in the
  -- context.
  pub auth_middleware-admits :
      (a : Authenticated)
      → NoSpace a.token
      → auth_middleware j now secret next ctx
        ≡ next (set_key user_id_key (int a.claims.user_id) ctx)
  unfolding auth_middleware with_token bearer admit
  auth_middleware-admits a h =
      rw a.header
        (rw (split-append (codes "Bearer") a.token (ground arith) h) (rw (a.valid, a.access)))

  -- The request goes on as the user `id`.
  abbrev Passes : M S Response → ℤ → S → Type 0
  Passes m id s = m s ≡ next (set_key user_id_key (int id) ctx) s

  -- It is answered with 401, and nothing else happens.
  abbrev Refused : M S Response → S → Type 0
  Refused m s = (r : Response) × (r.status ≡ 401) × (m s ≡ (ok r, s))

  admit_cases :
      (r : Outcome Claims) (s : S)
      → ((p : String) → r ≢ panic p)
      → ((c : Claims) × (r ≡ ok c)
          × (c.type ≡ access_token)
          × Passes (admit j now secret r next ctx) c.user_id s)
        ⊎ Refused (admit j now secret r next ctx) s
  unfolding admit
  admit_cases (ok c) s h = elim (Bool-cases (str_eq c.type access_token)) [
    | inl same ↦ inl (c, refl, (eq_iff c.type access_token).0 same, rw same)
    | inr ne ↦ inr (failure 401 "Invalid token type", refl, rw ne)
  ]
  admit_cases (err e) s h = elim (Bool-cases (is_expired e)) [
    | inl same ↦ inr (failure 401 "Token expired", refl, rw same)
    | inr ne ↦ inr (failure 401 "Invalid token", refl, rw ne)
  ]
  admit_cases (panic p) s h = absurd (h p refl)

  -- A request goes on only with a valid access token, as the user of that token; every other
  -- request is answered with 401, and nothing else happens.
  pub auth_middleware_cases :
      (s : S)
      → ((a : Authenticated) × (auth_middleware j now secret next ctx s
            ≡ next (set_key user_id_key (int a.claims.user_id) ctx) s))
        ⊎ ((r : Response) × (r.status ≡ 401)
            × (auth_middleware j now secret next ctx s ≡ (ok r, s)))
  unfolding auth_middleware with_token
  auth_middleware_cases s = elim (Bool-cases (text_eq ctx.authorization [])) [
    | inl empty ↦ inr (failure 401 "Authorization header required", refl, rw empty)
    | inr given ↦ elim (Outcome-cases (bearer (split 32 ctx.authorization))) [
      | inl (t, form) ↦
          elim (admit_cases (validate_token j now t secret) s
            (λ p. unfold validate_token in checked-no_panic _ p)) [
              | inl (c, valid, access, same) ↦ inl (
                record {
                  token = t;
                  claims = c;
                  header = bearer_sound ctx.authorization t form;
                  valid = valid;
                  access = access;
                },
                rw (given, form) same,
              )
              | inr (r, status, same) ↦ inr (r, status, rw (given, form) same)
            ]
      | inr (inl (e, form)) ↦
          inr (
            failure 401 "Invalid authorization format. Use: Bearer <token>",
            refl,
            rw (given, form),
          )
      | inr (inr (p, form)) ↦ absurd (bearer-no_panic _ p form)
    ]
  ]

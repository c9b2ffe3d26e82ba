-- ===== src/Go.antt =====
-- What the program uses of Go itself: errors as values, panics, and functions that change a state.
use Prim.Native.String.{◌++◌}
use async_task_orchestrator.Prelude.{String, ◌≡◌, ◌≢◌, ◌⊎◌, inl, inr, refl}

-- The errors that the code makes or tells apart. `new` is errors.New, a fmt.Errorf without %w and
-- any error of a library that is known by its text only; `wrap` is a fmt.Errorf that ends in %w.
pub data Error : Type 0 where
  new : String → Error
  wrap : String → Error → Error
  invalid_token : Error
  expired_token : Error
  no_rows : Error
  pq_error : String → String → Error

-- err.Error()
unfoldable pub text : Error → String
text (new s) = s
text (wrap prefix e) = prefix ++ text e
text invalid_token = "invalid token"
text expired_token = "token expired"
text no_rows = "sql: no rows in result set"
text (pq_error code s) = s

-- How a call ends: a nil error beside a value, an error, or a panic.
pub data Outcome {ℓ} (A : Type ℓ) : Type ℓ where
  ok : A → Outcome A
  err : Error → Outcome A
  panic : String → Outcome A

-- A call that may change a state `S`.
abbrev pub M {ℓ κ} : Type ℓ → Type κ → Type (ℓ ⊔ κ)
M S A = S → Outcome A × S

module _ {ℓ κ} {S : Type ℓ} {A : Type κ} where
  abbrev pub pure : A → M S A
  pure a s = (ok a, s)

  abbrev pub raise : Error → M S A
  raise e s = (err e, s)

  abbrev pub throw : String → M S A
  throw p s = (panic p, s)

module _ {ℓ κ μ} {S : Type ℓ} {A : Type κ} {B : Type μ} where
  -- `x, err := m; if err != nil { on_err } ; on_ok`; a panic goes on.
  abbrev pub after : Outcome A → (A → M S B) → (Error → M S B) → M S B
  after (ok a) on_ok on_err s = on_ok a s
  after (err e) on_ok on_err s = on_err e s
  after (panic p) on_ok on_err s = (panic p, s)

  abbrev pub handle : M S A → (A → M S B) → (Error → M S B) → M S B
  handle m on_ok on_err s = let (r, s') = m s in after r on_ok on_err s'

  infixl 5 ◌>>=◌ ◌>>◌
  -- `x, err := m; if err != nil { return err }`
  abbrev pub ◌>>=◌ : M S A → (A → M S B) → M S B
  m >>= f = handle m f raise

  abbrev pub ◌>>◌ : M S A → M S B → M S B
  m >> n = m >>= λ _. n

  -- The error of `m` is logged or dropped, and the code goes on with `n`.
  abbrev pub ignoring : M S A → M S B → M S B
  ignoring m n = handle m (λ _. n) (λ _. n)

-- `defer func() { if r := recover(); r != nil { cleanup; panic(r) } }()`
module _ {ℓ κ} {S : Type ℓ} {A : Type κ} where
  abbrev pub recovered : Outcome A → M S (Unit {0}) → M S A
  recovered (ok a) cleanup s = (ok a, s)
  recovered (err e) cleanup s = (err e, s)
  recovered (panic p) cleanup s = ignoring cleanup (throw p) s

  abbrev pub on_panic : M S A → M S (Unit {0}) → M S A
  on_panic m cleanup s = let (r, s') = m s in recovered r cleanup s'

  -- `defer cleanup` with its error dropped: it runs also on an error and on a panic of `m`.
  abbrev pub deferring : M S A → M S (Unit {0}) → M S A
  deferring m cleanup s = let (r, s') = m s in ignoring cleanup (λ s''. (r, s'')) s'

pub Outcome-cases {ℓ} :
    {A : Type ℓ} (r : Outcome A)
    → ((a : A) × (r ≡ ok a)) ⊎ (((e : Error) × (r ≡ err e)) ⊎ ((p : String) × (r ≡ panic p)))
Outcome-cases (ok a) = inl (a, refl)
Outcome-cases (err e) = inr (inl (e, refl))
Outcome-cases (panic p) = inr (inr (p, refl))

pub ok-injective {ℓ} : {A : Type ℓ} {a b : A} → Outcome.ok a ≡ ok b → a ≡ b
ok-injective h = cc

-- A call that gives a value gave it after `m`, if the other branch gives none.
pub handle-ok {ℓ κ μ} :
    {S : Type ℓ} {A : Type κ} {B : Type μ} (m : M S A) (f : A → M S B) (g : Error → M S B)
    → ((e : Error) (s : S) (b : B) → (g e s).0 ≢ ok b)
    → (s : S) (b : B) → (handle m f g s).0 ≡ ok b
    → (a : A) × ((m s).0 ≡ ok a) × (handle m f g s ≡ f a (m s).1)
handle-ok m f g none_given s b h = elim (Outcome-cases (m s).0) [
  | inl (a, e) ↦ (a, e, rw e refl)
  | inr (inl (e, failed)) ↦ absurd (none_given e (m s).1 b (rw failed at h))
  | inr (inr (p, failed)) ↦ absurd (cc (rw failed at h))
]

pub bind-ok {ℓ κ μ} :
    {S : Type ℓ} {A : Type κ} {B : Type μ} (m : M S A) (f : A → M S B) (s : S) (b : B)
    → ((m >>= f) s).0 ≡ ok b
    → (a : A) × ((m s).0 ≡ ok a) × ((m >>= f) s ≡ f a (m s).1)
bind-ok m f s b h = handle-ok m f raise (λ e t x k. cc) s b h

-- A call whose error ends the process.
pub fatal-ok {ℓ κ μ} :
    {S : Type ℓ} {A : Type κ} {B : Type μ} (m : M S A) (f : A → M S B) (message : String) (s : S)
    (b : B)
    → (handle m f (λ e. throw message) s).0 ≡ ok b
    → (a : A) × ((m s).0 ≡ ok a) × (handle m f (λ e. throw message) s ≡ f a (m s).1)
fatal-ok m f message s b h = handle-ok m f (λ e. throw message) (λ e t x k. cc) s b h

-- ===== src/Http.antt =====
-- What the handlers use of the web framework gin: the context of a request, the JSON answer, and
-- the chain of handlers. The framework is not part of the repository: how it runs a chain is a
-- parameter.
use async_task_orchestrator.Prelude.{
  ℕ, ℤ, String, str_eq, Option, none, some, List, [], ◌∷◌, ◌≡◌, if◌then◌else◌, Text,
}
use async_task_orchestrator.Go.{M}
use async_task_orchestrator.Sql.Tables.{Task}
use async_task_orchestrator.Limiter.Config.{Rate}

-- A value kept under a key of the context: an int, or a value of another type.
pub data Any : Type 0 where
  int : ℤ → Any
  other : String → Any

-- *gin.Context: the Authorization header ("" if there is none), the parameter `:id`, the body, and
-- the keys that handlers set.
pub record Context : Type 0 where
  pub authorization : Text
  pub id_param : Text
  pub body : Text
  pub keys : List (String × Any)

-- c.Get(key)
unfoldable pub get_key : String → List (String × Any) → Option Any
get_key k [] = none
get_key k ((j, v) ∷ m) = if str_eq j k then some v else get_key k m

-- c.Set(key, value); the newest value is found first.
abbrev pub set_key : String → Any → Context → Context
set_key k v ctx = record ctx { keys = (k, v) ∷ ctx.keys }

-- A value of a JSON answer.
pub data Value : Type 0 where
  str : String → Value
  num : ℤ → Value
  text : Text → Value
  nullable : Option String → Value
  time : ℕ → Value
  rate : Rate → Value
  tasks : List Task → Value

pub record Response : Type 0 where
  pub status : ℕ
  pub body : List (String × Value)

-- gin.H{"error": message}
abbrev pub failure : ℕ → String → Response
failure status message = record { status = status; body = ("error", str message) ∷ [] }

-- A handler answers; a middleware has the rest of the chain for c.Next(), and aborts the chain
-- where it does not call it.
abbrev pub Handler : Type 0 → Type 0
Handler S = Context → M S Response

abbrev pub Middleware : Type 0 → Type 0
Middleware S = Handler S → Handler S

-- How the framework runs the middlewares of a group before the handler of a route: in the order in
-- which they were registered.
pub record Engine (S : Type 0) : Type 0 where
  pub chain : List (Middleware S) → Handler S → Handler S
  pub chain_nil : (h : Handler S) → chain [] h ≡ h
  pub chain_cons :
      (m : Middleware S) (ms : List (Middleware S)) (h : Handler S)
      → chain (m ∷ ms) h ≡ m (chain ms h)

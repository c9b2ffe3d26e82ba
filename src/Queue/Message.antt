-- ===== src/Queue/Message.antt =====
-- The messages of RabbitMQ, as internal/worker and internal/task use them.
use async_task_orchestrator.Prelude.{
  ℕ, ℤ, String, Option, none, some, List, [], ◌∷◌, str_eq, if◌then◌else◌, Text,
}

-- A value of an amqp.Table: an int32, or a value of another type.
pub data Field : Type 0 where
  int32 : ℤ → Field
  other : String → Field

abbrev pub Headers : Type 0
Headers = List (String × Field)

unfoldable pub header : String → Headers → Option Field
header k [] = none
header k ((j, v) ∷ m) = if str_eq j k then some v else header k m

unfoldable pub set_header : String → Field → Headers → Headers
set_header k v [] = (k, v) ∷ []
set_header k v ((j, w) ∷ m) = if str_eq j k then (k, v) ∷ m else (j, w) ∷ set_header k v m

-- amqp.Delivery; a nil header table is `none`.
pub record Delivery : Type 0 where
  pub tag : ℕ
  pub routing_key : String
  pub content_type : String
  pub body : Text
  pub headers : Option Headers

-- amqp.Publishing, with the routing key that it is sent to; the exchange is the default one.
pub record Publishing : Type 0 where
  pub routing_key : String
  pub content_type : String
  pub body : Text
  pub headers : Option Headers

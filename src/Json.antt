-- ===== src/Json.antt =====
-- What the worker uses of encoding/json: how json.Unmarshal reads a text into a TaskPayload.
pub mod Lexer
pub mod Strings
pub mod Quotes
pub mod Numbers
pub mod RoundTrip
pub mod Payload
mod Tests

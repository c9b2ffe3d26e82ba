-- ===== src/Json/Payload.antt =====
-- json.Unmarshal into the TaskPayload of internal/task/model.go, as internal/worker/worker.go calls
-- it. A text that is no JSON and a value of a wrong type are both an error, `none`.
use mathlib.Core.Option.{map as map_option}
use async_task_orchestrator.Prelude.{
  ℕ, ◌+◌, ◌==◌, ltb, leb, pos, ◌&&◌, Option, none, some, List, [], ◌∷◌, map, if◌then◌else◌, Text,
  text_eq, codes, text_of, length,
}
use async_task_orchestrator.Fmt.{atoi}
use async_task_orchestrator.Task.Model.{TaskPayload}
use async_task_orchestrator.Json.Lexer.{
  Token, open_object, close_object, open_array, close_array, colon, comma, null, string, number,
  between, lex,
}

pub data Frame : Type 0 where
  object array : Frame

-- What may come next.
pub data Expect : Type 0 where
  value item key next_key a_colon after : Expect

-- The fields of the struct.
pub data Field : Type 0 where
  id user_id task_type : Field

pub record Decoder : Type 0 where
  pub payload : TaskPayload
  pub field : Option Field
  pub stack : List Frame
  pub expect : Expect

-- The case of a letter, and the two letters beyond ASCII that fold to `k` and `s`.
unfoldable pub fold : ℕ → ℕ
fold c =
    if leb 65 c && leb c 90
    then c + 32
    else if c == 8490
    then b'k'
    else if c == 383
    then b's'
    else c

-- The field of a key: names are compared without their case.
unfoldable pub field_of : Text → Option Field
unfolding fold
field_of k =
    if text_eq (map fold k) (codes "id")
    then some id
    else if text_eq (map fold k) (codes "user_id")
    then some user_id
    else if text_eq (map fold k) (codes "task_type")
    then some task_type
    else none

-- A value of one token for a field; `null` changes nothing, and so does a key that is no field.
unfoldable pub assign : Option Field → Token → TaskPayload → Option TaskPayload
assign none t p = some p
assign (some f) null p = some p
assign (some id) (number s) p = map_option (λ i. record p { id = i }) (atoi s)
assign (some user_id) (number s) p = map_option (λ i. record p { user_id = i }) (atoi s)
assign (some task_type) (string s) p = some (record p { task_type = text_of s })
assign (some f) t p = none

-- A complete value, which stands in the given frames.
unfoldable pub scalar : List Frame → Token → Decoder → Option Decoder
unfolding assign
scalar [] null d = some (record d { expect = after })
scalar [] t d = none
scalar (object ∷ []) t d =
    map_option (λ p. record d { payload = p; expect = after }) (assign d.field t d.payload)
scalar (f ∷ fs) t d = some (record d { expect = after })

-- The scanner's limit on the depth.
unfoldable pub push : Frame → Expect → Decoder → Option Decoder
push f e d =
    if ltb (length d.stack) 10000 then some (record d { stack = f ∷ d.stack; expect = e }) else none

-- An object or an array where a value is expected: no field is one of these.
unfoldable pub nest : List Frame → Option Field → Frame → Expect → Decoder → Option Decoder
unfolding push
nest [] field object e d = push object e d
nest [] field array e d = none
nest (object ∷ []) (some f) frame e d = none
nest (object ∷ []) none frame e d = push frame e d
nest (f ∷ fs) field frame e d = push frame e d

unfoldable pub begin_value : Token → Decoder → Option Decoder
unfolding nest scalar
begin_value open_object d = nest d.stack d.field object key d
begin_value open_array d = nest d.stack d.field array item d
begin_value close_object d = none
begin_value close_array d = none
begin_value colon d = none
begin_value comma d = none
begin_value t d = scalar d.stack t d

-- Keys below the struct's own object are skipped.
unfoldable pub name : List Frame → Text → Decoder → Decoder
unfolding field_of
name (object ∷ []) k d = record d { field = field_of k; expect = a_colon }
name fs k d = record d { expect = a_colon }

-- The end of the innermost object or array.
unfoldable pub close : Frame → List Frame → Decoder → Option Decoder
close object (object ∷ fs) d = some (record d { stack = fs; expect = after })
close array (array ∷ fs) d = some (record d { stack = fs; expect = after })
close f fs d = none

unfoldable pub next : List Frame → Decoder → Option Decoder
next (object ∷ fs) d = some (record d { expect = next_key })
next (array ∷ fs) d = some (record d { expect = value })
next [] d = none

unfoldable pub step : Expect → Token → Decoder → Option Decoder
unfolding begin_value name close next
step value t d = begin_value t d
step item close_array d = close array d.stack d
step item t d = begin_value t d
step key close_object d = close object d.stack d
step key (string k) d = some (name d.stack k d)
step key t d = none
step next_key (string k) d = some (name d.stack k d)
step next_key t d = none
step a_colon colon d = some (record d { expect = value })
step a_colon t d = none
step after comma d = next d.stack d
step after close_object d = close object d.stack d
step after close_array d = close array d.stack d
step after t d = none

abbrev pub and_then : {A B : Type 0} → Option A → (A → Option B) → Option B
and_then none f = none
and_then (some a) f = f a

unfoldable pub run : List Token → Decoder → Option Decoder
unfolding step
run [] d = some d
run (t ∷ ts) d = and_then (step d.expect t d) (run ts)

-- The whole text was one value.
unfoldable pub complete : Expect → List Frame → TaskPayload → Option TaskPayload
complete after [] p = some p
complete e fs p = none

abbrev pub fresh : Decoder
fresh = record {
  payload = record { id = pos 0; user_id = pos 0; task_type = "" };
  field = none;
  stack = [];
  expect = value;
}

unfoldable pub unmarshal_payload : Text → Option TaskPayload
unfolding lex run complete
unmarshal_payload s =
    and_then (lex between s) λ ts. and_then (run ts fresh) λ d. complete d.expect d.stack d.payload

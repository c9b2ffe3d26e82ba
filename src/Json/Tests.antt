-- ===== src/Json/Tests.antt =====
-- Texts that json.Unmarshal reads into a TaskPayload, and some that it refuses.
use async_task_orchestrator.Prelude.{
  ◌≡◌, refl, ap, text_of-codes, true, if◌then◌else◌, pos, negsuc, none, some, codes, arith,
}
use async_task_orchestrator.Fmt.{atoi, in_range, read_nat, read_digits, is_digit}
use async_task_orchestrator.Task.Body.{task_body}
use async_task_orchestrator.Json.Lexer.{
  lex, react, finish, start, is_space, next_phase, accepting, after_number, after_escape, after_hex,
  unescape, hex_value, joined, is_exponent,
}
use async_task_orchestrator.Json.Payload.{
  unmarshal_payload, run, step, begin_value, scalar, assign, nest, push, name, field_of, fold,
  close, next, complete,
}
use async_task_orchestrator.Json.Quotes.{all_carried}
use async_task_orchestrator.Json.RoundTrip.{unmarshal_payload-task_body}

-- Keys in another case, other fields and nested values are read past.
reordered :
    unmarshal_payload (codes "{\"x\": [1, {\"id\": 5}], \"TASK_type\": \"a\\u0062\", \"Id\": -3}")
    ≡ some (record { id = negsuc 2; user_id = pos 0; task_type = "ab" })
unfolding unmarshal_payload lex react finish start is_space next_phase accepting after_number
    after_escape after_hex unescape hex_value joined is_exponent run step begin_value scalar assign
    nest push name field_of fold close next complete atoi in_range read_nat read_digits is_digit
reordered =
    ap (λ s. some (record { id = negsuc 2; user_id = pos 0; task_type = s })) (text_of-codes "ab")

not_int : unmarshal_payload (codes "{\"id\": 1.5}") ≡ none
unfolding unmarshal_payload lex react finish start is_space next_phase accepting after_number
    after_escape after_hex unescape hex_value joined is_exponent run step begin_value scalar assign
    nest push name field_of fold close next complete atoi in_range read_nat read_digits is_digit
not_int = refl

unclosed : unmarshal_payload (codes "{\"id\": 1") ≡ none
unfolding unmarshal_payload lex react finish start is_space next_phase accepting after_number
    after_escape after_hex unescape hex_value joined is_exponent run step begin_value scalar assign
    nest push name field_of fold close next complete atoi in_range read_nat read_digits is_digit
unclosed = refl

-- The byte 7, which `%q` prints as \a.
bell : unmarshal_payload (codes "{\"task_type\": \"\\a\"}") ≡ none
unfolding unmarshal_payload lex react finish start is_space next_phase accepting after_number
    after_escape after_hex unescape hex_value joined is_exponent run step begin_value scalar assign
    nest push name field_of fold close next complete atoi in_range read_nat read_digits is_digit
bell = refl

unmarshal_payload-task_body_example :
    unmarshal_payload (task_body (λ c. true) (pos 7) (negsuc 0) (codes "send \"mail\"")) ≡ (
      if all_carried (λ c. true) (codes "send \"mail\"")
      then some (record { id = pos 7; user_id = negsuc 0; task_type = "send \"mail\"" })
      else none)
unmarshal_payload-task_body_example =
    unmarshal_payload-task_body (λ c. true) (pos 7) (negsuc 0) "send \"mail\"" (omega arith)
      (omega arith)

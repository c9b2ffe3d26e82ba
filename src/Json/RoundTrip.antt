-- ===== src/Json/RoundTrip.antt =====
-- The message that internal/task/service.go writes, as internal/worker/worker.go reads it.
use mathlib.Core.Option.{map as map_option}
use async_task_orchestrator.Prelude.{
  ℕ, ℤ, String, Bool, Bool-cases, Option-cases, ◌≡◌, inl, inr, refl, ap, ◌∙◌, Option, none, some,
  List, [], ◌∷◌, ◌++◌, if◌then◌else◌, Text, codes, text_of, text_of-codes, codes-IsRune,
}
use async_task_orchestrator.Fmt.{decimal}
use async_task_orchestrator.Fmt.RoundTrip.{IsInt, atoi-decimal}
use async_task_orchestrator.Task.Body.{quoted, task_body}
use async_task_orchestrator.Json.Lexer.{
  Token, open_object, close_object, colon, comma, string, number, between, react, start, is_space,
  joined, lex, finish,
}
use async_task_orchestrator.Json.Quotes.{all_carried, quoted-lex, quoted-stuck}
use async_task_orchestrator.Json.Numbers.{decimal-lex}
use async_task_orchestrator.Json.Payload
use async_task_orchestrator.Json.Payload.{
  fresh, and_then, run, step, begin_value, scalar, assign, nest, push, name, field_of, fold, close,
  next, complete, unmarshal_payload,
}

abbrev indent : Text → Text
indent s = 10 ∷ 9 ∷ 9 ∷ 9 ∷ s

opening :
    (s : Text)
    → lex between ((codes "{" ++ indent (codes "\"id\": ")) ++ s)
      ≡ map_option (λ ts. open_object ∷ string (codes "id") ∷ colon ∷ ts) (lex between s)
unfolding lex react start is_space joined
opening s = elim (Option-cases (lex between s)) [ inl e ↦ rw e | inr (ts, e) ↦ rw e ]

second_key :
    (s : Text)
    → lex between (indent (codes "\"user_id\": ") ++ s)
      ≡ map_option (λ ts. string (codes "user_id") ∷ colon ∷ ts) (lex between s)
unfolding lex react start is_space joined
second_key s = elim (Option-cases (lex between s)) [ inl e ↦ rw e | inr (ts, e) ↦ rw e ]

third_key :
    (s : Text)
    → lex between (indent (codes "\"task_type\": ") ++ s)
      ≡ map_option (λ ts. string (codes "task_type") ∷ colon ∷ ts) (lex between s)
unfolding lex react start is_space joined
third_key s = elim (Option-cases (lex between s)) [ inl e ↦ rw e | inr (ts, e) ↦ rw e ]

closing : lex between (10 ∷ 9 ∷ 9 ∷ codes "}") ≡ some (close_object ∷ [])
unfolding lex react start is_space finish
closing = refl

map_twice :
    (f g : List Token → List Token) (o : Option (List Token))
    → map_option f (map_option g o) ≡ map_option (λ ts. f (g ts)) o
map_twice f g none = refl
map_twice f g (some ts) = refl

-- The tokens of a message.
abbrev message_tokens : ℤ → ℤ → Text → List Token
message_tokens id user_id task_type =
    open_object
    ∷ string (codes "id")
    ∷ colon
    ∷ number (decimal id)
    ∷ comma
    ∷ string (codes "user_id")
    ∷ colon
    ∷ number (decimal user_id)
    ∷ comma
    ∷ string (codes "task_type")
    ∷ colon
    ∷ string task_type
    ∷ close_object
    ∷ []

module _ (is_print : ℕ → Bool) where
  body-lex :
      (id user_id : ℤ) (s : Text) (o : Option (List Token))
      → lex between (quoted is_print s ++ 10 ∷ 9 ∷ 9 ∷ codes "}") ≡ o
      → lex between (task_body is_print id user_id s)
        ≡ map_option
            (λ ts.
              open_object
              ∷ string (codes "id")
              ∷ colon
              ∷ number (decimal id)
              ∷ comma
              ∷ string (codes "user_id")
              ∷ colon
              ∷ number (decimal user_id)
              ∷ comma
              ∷ string (codes "task_type")
              ∷ colon
              ∷ ts)
            o
  unfolding task_body
  body-lex id user_id s o h =
      opening _
      ∙ ap (map_option _) (
          decimal-lex id _
          ∙ ap (map_option _) (
              second_key _
              ∙ ap (map_option _)
                  (decimal-lex user_id _ ∙ ap (map_option _) (third_key _ ∙ ap (map_option _) h))))
      ∙ simp map_twice

run_message :
    (id user_id : ℤ) (s : Text)
    → IsInt id
    → IsInt user_id
    → run (message_tokens id user_id s) fresh
      ≡ some (record {
        payload = record { id = id; user_id = user_id; task_type = text_of s };
        field = some Payload.task_type;
        stack = [];
        expect = Payload.after;
      })
unfolding run field_of
run_message id user_id s h k = rw (atoi-decimal id h, atoi-decimal user_id k) refl

module _ (is_print : ℕ → Bool) where
  -- What the worker decodes from the message of a task whose identity and user are ints of 64
  -- bits: these two and the task's type, if the text of the type is carried by `%q` and JSON
  -- alike; for any other type it is an error.
  pub unmarshal_payload-task_body :
      (id user_id : ℤ) (task_type : String)
      → IsInt id
      → IsInt user_id
      → unmarshal_payload (task_body is_print id user_id (codes task_type)) ≡ (
          if all_carried is_print (codes task_type)
          then some (record { id = id; user_id = user_id; task_type = task_type })
          else none)
  unfolding unmarshal_payload
  unmarshal_payload-task_body id user_id task_type h k =
      elim (Bool-cases (all_carried is_print (codes task_type))) [
        | inl carried ↦
            let tokens =
              body-lex is_print id user_id (codes task_type)
                (some (string (codes task_type) ∷ close_object ∷ []))
                (quoted-lex is_print (codes task_type) (10 ∷ 9 ∷ 9 ∷ codes "}") carried
                    (codes-IsRune task_type)
                  ∙ ap (map_option (λ ts. string (codes task_type) ∷ ts)) closing) in
            rw
              (
                carried,
                tokens,
                run_message id user_id (codes task_type) h k,
                text_of-codes task_type,
              )
              refl
        | inr other ↦
            let stuck =
              body-lex is_print id user_id (codes task_type) none
                (quoted-stuck is_print (codes task_type) (10 ∷ 9 ∷ 9 ∷ codes "}") other) in
            rw (other, stuck) refl
      ]

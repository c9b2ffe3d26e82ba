-- ===== src/Task/Body.antt =====
-- The JSON text that CreateTask of internal/task/service.go publishes, with `%d` and `%q` of fmt.
use async_task_orchestrator.Prelude.{
  ℕ, ◌+◌, ◌/◌, ◌%◌, ◌==◌, ltb, Bool, ◌&&◌, ◌||◌, ℤ, [], ◌∷◌, ◌++◌, if◌then◌else◌, Text, codes,
}
use async_task_orchestrator.Fmt.{decimal}

-- A digit of a number in base 16.
unfoldable pub hex_digit : ℕ → ℕ
hex_digit d = if ltb d 10 then 48 + d else 87 + d

unfoldable pub hex2 : ℕ → Text
unfolding hex_digit
hex2 n = hex_digit (n / 16 % 16) ∷ hex_digit (n % 16) ∷ []

unfoldable pub hex4 : ℕ → Text
unfolding hex2
hex4 n = hex2 (n / 256) ++ hex2 (n % 256)

unfoldable pub hex8 : ℕ → Text
unfolding hex4
hex8 n = hex4 (n / 65536) ++ hex4 (n % 65536)

-- The letter of the short escape of a control character: \a \b \t \n \v \f \r; 0 for no such.
unfoldable pub short_escape : ℕ → ℕ
short_escape c =
    if c == 7
    then b'a'
    else if c == 8
    then b'b'
    else if c == 9
    then b't'
    else if c == 10
    then b'n'
    else if c == 11
    then b'v'
    else if c == 12
    then b'f'
    else if c == 13
    then b'r'
    else 0

module _ (is_print : ℕ → Bool) where
  -- One rune of strconv.Quote; `is_print` is strconv.IsPrint above ASCII.
  unfoldable pub quote_rune : ℕ → Text
  unfolding short_escape hex2 hex4 hex8
  quote_rune c =
      if (c == 34) || (c == 92)
      then 92 ∷ c ∷ []
      else if ltb 31 c && ltb c 127
      then c ∷ []
      else if ltb 127 c && is_print c
      then c ∷ []
      else if ltb 0 (short_escape c)
      then 92 ∷ short_escape c ∷ []
      else if ltb c 32 || (c == 127)
      then 92 ∷ b'x' ∷ hex2 c
      else if ltb c 65536
      then 92 ∷ b'u' ∷ hex4 c
      else 92 ∷ b'U' ∷ hex8 c

  unfoldable pub quote_runes : Text → Text
  unfolding quote_rune
  quote_runes [] = []
  quote_runes (c ∷ s) = quote_rune c ++ quote_runes s

  -- fmt.Sprintf("%q", s)
  unfoldable pub quoted : Text → Text
  unfolding quote_runes
  quoted s = 34 ∷ (quote_runes s ++ 34 ∷ [])

  -- The line breaks and tabs of the raw strings are 10 and 9.
  unfoldable pub task_body : ℤ → ℤ → Text → Text
  unfolding quoted
  task_body id user_id task_type =
      (codes "{" ++ 10 ∷ 9 ∷ 9 ∷ 9 ∷ codes "\"id\": ")
      ++ (decimal id
          ++ ((codes "," ++ 10 ∷ 9 ∷ 9 ∷ 9 ∷ codes "\"user_id\": ")
              ++ (decimal user_id
                  ++ ((codes "," ++ 10 ∷ 9 ∷ 9 ∷ 9 ∷ codes "\"task_type\": ")
                      ++ (quoted task_type ++ 10 ∷ 9 ∷ 9 ∷ codes "}")))))

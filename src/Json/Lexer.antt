-- ===== src/Json/Lexer.antt =====
-- The scanner of encoding/json: a text as tokens, read one code point at a time.
use mathlib.Core.Option.{map as map_option}
use async_task_orchestrator.Prelude.{
  ℕ, zero, suc, ◌+◌, ◌-◌, ◌*◌, ◌==◌, ltb, leb, Bool, true, false, ◌&&◌, ◌||◌, Option, none, some,
  List, [], ◌∷◌, ◌++◌, if◌then◌else◌, Text, codes,
}
use async_task_orchestrator.Fmt.{is_digit}

pub data Token : Type 0 where
  open_object close_object open_array close_array colon comma true_word false_word null : Token
  string : Text → Token
  number : Text → Token

-- Where a number stands: after its sign, in its digits, after the dot and in the digits after it,
-- after the `e`, after the exponent's sign, and in the exponent's digits.
pub data Phase : Type 0 where
  signed leading_zero digits dot fraction exponent exponent_sign exponent_digits : Phase

-- A piece of a string: a code point as it stands, or the four digits of `\u`.
pub data Part : Type 0 where
  rune : ℕ → Part
  unit : ℕ → Part

-- What the scanner is in: `in_hex ps v k` has read a part of `\u` with the value `v` and needs
-- `k + 1` more digits; `in_word s t` needs the letters `s` for the token `t`.
pub data Mode : Type 0 where
  between : Mode
  in_string in_escape : List Part → Mode
  in_hex : List Part → ℕ → ℕ → Mode
  in_number : Phase → Text → Mode
  in_word : Text → Token → Mode

unfoldable pub is_high : ℕ → Bool
is_high v = leb 55296 v && ltb v 56320

unfoldable pub is_low : ℕ → Bool
is_low v = leb 56320 v && ltb v 57344

-- utf16.DecodeRune on two halves, and U+FFFD for a half on its own.
unfoldable pub combined : ℕ → ℕ → ℕ
combined high low = 65536 + (high - 55296) * 1024 + (low - 56320)

unfoldable pub lone : ℕ → ℕ
unfolding is_high is_low
lone v = if is_high v || is_low v then 65533 else v

-- The text of a string; the first argument is a high half that waits for its low half.
unfoldable pub joined : Option ℕ → List Part → Text
unfolding is_high is_low combined lone
joined none [] = []
joined none (rune c ∷ ps) = c ∷ joined none ps
joined none (unit v ∷ ps) = elim (is_high v) [
  | true ↦ joined (some v) ps
  | false ↦ lone v ∷ joined none ps
]
joined (some h) [] = 65533 ∷ []
joined (some h) (rune c ∷ ps) = 65533 ∷ c ∷ joined none ps
joined (some h) (unit v ∷ ps) = elim (is_low v) [
  | true ↦ combined h v ∷ joined none ps
  | false ↦ elim (is_high v) [
    | true ↦ 65533 ∷ joined (some v) ps
    | false ↦ 65533 ∷ v ∷ joined none ps
  ]
]

unfoldable pub is_space : ℕ → Bool
is_space c = (c == 32) || (c == 9) || (c == 10) || (c == 13)

-- What a letter after the backslash stands for.
unfoldable pub unescape : ℕ → Option ℕ
unescape c =
    if (c == 34) || (c == 92) || (c == 47)
    then some c
    else if c == b'b'
    then some 8
    else if c == b'f'
    then some 12
    else if c == b'n'
    then some 10
    else if c == b'r'
    then some 13
    else if c == b't'
    then some 9
    else none

unfoldable pub hex_value : ℕ → Option ℕ
hex_value c =
    if leb 48 c && leb c 57
    then some (c - 48)
    else if leb 97 c && leb c 102
    then some (c - 87)
    else if leb 65 c && leb c 70
    then some (c - 55)
    else none

-- The first code point of a token.
unfoldable pub start : ℕ → Option (Mode × List Token)
unfolding is_space
start c =
    if is_space c
    then some (between, [])
    else if c == b'{'
    then some (between, open_object ∷ [])
    else if c == b'}'
    then some (between, close_object ∷ [])
    else if c == b'['
    then some (between, open_array ∷ [])
    else if c == b']'
    then some (between, close_array ∷ [])
    else if c == b':'
    then some (between, colon ∷ [])
    else if c == b','
    then some (between, comma ∷ [])
    else if c == 34
    then some (in_string [], [])
    else if c == b'-'
    then some (in_number signed (c ∷ []), [])
    else if c == 48
    then some (in_number leading_zero (c ∷ []), [])
    else if leb 49 c && leb c 57
    then some (in_number digits (c ∷ []), [])
    else if c == b't'
    then some (in_word (codes "rue") true_word, [])
    else if c == b'f'
    then some (in_word (codes "alse") false_word, [])
    else if c == b'n'
    then some (in_word (codes "ull") null, [])
    else none

unfoldable pub is_exponent : ℕ → Bool
is_exponent c = (c == b'e') || (c == b'E')

-- How a number goes on.
unfoldable pub next_phase : Phase → ℕ → Option Phase
unfolding is_digit is_exponent
next_phase signed c =
    if c == 48 then some leading_zero else if is_digit c then some digits else none
next_phase leading_zero c =
    if c == b'.' then some dot else if is_exponent c then some exponent else none
next_phase digits c =
    if is_digit c
    then some digits
    else if c == b'.'
    then some dot
    else if is_exponent c
    then some exponent
    else none
next_phase dot c = if is_digit c then some fraction else none
next_phase fraction c =
    if is_digit c then some fraction else if is_exponent c then some exponent else none
next_phase exponent c =
    if (c == b'+') || (c == b'-')
    then some exponent_sign
    else if is_digit c
    then some exponent_digits
    else none
next_phase exponent_sign c = if is_digit c then some exponent_digits else none
next_phase exponent_digits c = if is_digit c then some exponent_digits else none

-- A number may end here.
unfoldable pub accepting : Phase → Bool
accepting leading_zero = true
accepting digits = true
accepting fraction = true
accepting exponent_digits = true
accepting _ = false

unfoldable pub after_number : Phase → Text → ℕ → Option Phase → Option (Mode × List Token)
unfolding start accepting
after_number p s c (some p') = some (in_number p' (s ++ c ∷ []), [])
after_number p s c none =
    if accepting p then map_option (λ (m, ts). (m, number s ∷ ts)) (start c) else none

unfoldable pub after_escape : List Part → Option ℕ → Option (Mode × List Token)
after_escape ps (some c) = some (in_string (ps ++ rune c ∷ []), [])
after_escape ps none = none

unfoldable pub after_hex : List Part → ℕ → ℕ → Option ℕ → Option (Mode × List Token)
after_hex ps v zero (some d) = some (in_string (ps ++ unit (v * 16 + d) ∷ []), [])
after_hex ps v (suc k) (some d) = some (in_hex ps (v * 16 + d) k, [])
after_hex ps v k none = none

-- One code point: the mode that follows, and the tokens that are complete.
unfoldable pub react : Mode → ℕ → Option (Mode × List Token)
unfolding start unescape hex_value next_phase after_number after_escape after_hex joined
react between c = start c
react (in_string ps) c =
    if c == 34
    then some (between, string (joined none ps) ∷ [])
    else if c == 92
    then some (in_escape ps, [])
    else if ltb c 32
    then none
    else some (in_string (ps ++ rune c ∷ []), [])
react (in_escape ps) c =
    if c == b'u' then some (in_hex ps 0 3, []) else after_escape ps (unescape c)
react (in_hex ps v k) c = after_hex ps v k (hex_value c)
react (in_number p s) c = after_number p s c (next_phase p c)
react (in_word [] t) c = none
react (in_word (d ∷ []) t) c = if c == d then some (between, t ∷ []) else none
react (in_word (d ∷ e ∷ s) t) c = if c == d then some (in_word (e ∷ s) t, []) else none

-- The end of the text.
unfoldable pub finish : Mode → Option (List Token)
unfolding accepting
finish between = some []
finish (in_number p s) = if accepting p then some (number s ∷ []) else none
finish _ = none

abbrev pub feed : (Mode → Option (List Token)) → Option (Mode × List Token) → Option (List Token)
feed rest none = none
feed rest (some (m, ts)) = map_option (λ us. ts ++ us) (rest m)

unfoldable pub lex : Mode → Text → Option (List Token)
unfolding react finish
lex m [] = finish m
lex m (c ∷ s) = feed (λ m'. lex m' s) (react m c)

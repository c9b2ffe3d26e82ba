-- ===== src/Json/Strings.antt =====
-- The scanner of encoding/json on what `%q` of fmt prints.
use mathlib.Core.Option.{map as map_option}
use mathlib.Core.List.{append_assoc}
use async_task_orchestrator.Prelude.{
  ℕ, suc, ◌+◌, ◌*◌, ◌/◌, ◌%◌, ◌<◌, ◌≤◌, ◌≡◌, ◌≢◌, refl, ap, ◌∙◌, arith, Option, none, some, List,
  [], ◌∷◌, ◌++◌, Text,
}
use async_task_orchestrator.Task.Body.{hex_digit, hex2, hex4}
use async_task_orchestrator.Json.Lexer.{
  Token, Mode, in_string, in_escape, in_hex, Part, rune, unit, unescape, hex_value, after_hex,
  after_escape, react, lex,
}

append-nil_left : (o : Option (List Token)) → map_option (λ us. [] ++ us) o ≡ o
append-nil_left none = refl
append-nil_left (some ts) = refl

pub lex-silent :
    (m m' : Mode) (c : ℕ) (s : Text) → react m c ≡ some (m', []) → lex m (c ∷ s) ≡ lex m' s
unfolding lex
lex-silent m m' c s h = rw h (append-nil_left (lex m' s))

pub lex-emit :
    (m m' : Mode) (c : ℕ) (t : Token) (s : Text)
    → react m c ≡ some (m', t ∷ [])
    → lex m (c ∷ s) ≡ map_option (λ us. t ∷ us) (lex m' s)
unfolding lex
lex-emit m m' c t s h = rw h

pub lex-stuck : (m : Mode) (c : ℕ) (s : Text) → react m c ≡ none → lex m (c ∷ s) ≡ none
unfolding lex
lex-stuck m c s h = rw h

-- The text takes the scanner from one mode to the other and completes no token.
abbrev pub Eats : Mode → Text → Mode → Type 0
Eats m s m' = (rest : Text) → lex m (s ++ rest) ≡ lex m' rest

pub Eats-append : (m m' m'' : Mode) (s t : Text) → Eats m s m' → Eats m' t m'' → Eats m (s ++ t) m''
Eats-append m m' m'' s t h k rest = ap (lex m) (append_assoc s t rest) ∙ h (t ++ rest) ∙ k rest

-- A code point that stands in a JSON string as it is.
pub Eats-plain :
    (ps : List Part) (c : ℕ)
    → 32 ≤ c
    → c ≢ 34
    → c ≢ 92
    → Eats (in_string ps) (c ∷ []) (in_string (ps ++ rune c ∷ []))
unfolding react
Eats-plain ps c h k l rest = lex-silent _ _ c rest (ground arith)

pub Eats-escape :
    (ps : List Part) (e c : ℕ)
    → e ≢ b'u'
    → unescape e ≡ some c
    → Eats (in_string ps) (92 ∷ e ∷ []) (in_string (ps ++ rune c ∷ []))
unfolding react after_escape
Eats-escape ps e c h k rest =
    lex-silent (in_string ps) (in_escape ps) 92 (e ∷ rest) refl
    ∙ lex-silent (in_escape ps) (in_string (ps ++ rune c ∷ [])) e rest (ground arith)

hex_value-hex_digit : (d : ℕ) → d < 16 → hex_value (hex_digit d) ≡ some d
unfolding hex_value hex_digit
hex_value-hex_digit d h = ground arith

hex_more :
    (ps : List Part) (v k d : ℕ)
    → d < 16
    → Eats (in_hex ps v (suc k)) (hex_digit d ∷ []) (in_hex ps (v * 16 + d) k)
unfolding react after_hex
hex_more ps v k d h rest = lex-silent _ _ (hex_digit d) rest (rw (hex_value-hex_digit d h))

hex_last :
    (ps : List Part) (v d : ℕ)
    → d < 16
    → Eats (in_hex ps v 0) (hex_digit d ∷ []) (in_string (ps ++ unit (v * 16 + d) ∷ []))
unfolding react after_hex
hex_last ps v d h rest = lex-silent _ _ (hex_digit d) rest (rw (hex_value-hex_digit d h))

hex_number :
    (c : ℕ)
    → c < 65536
    → (((0 * 16 + c / 256 / 16 % 16) * 16 + c / 256 % 16) * 16 + c % 256 / 16 % 16) * 16
        + c % 256 % 16
      ≡ c
hex_number c h = omega arith

pub Eats-hex4 :
    (ps : List Part) (c : ℕ)
    → c < 65536
    → Eats (in_string ps) (92 ∷ b'u' ∷ hex4 c) (in_string (ps ++ unit c ∷ []))
unfolding hex4 hex2 react
Eats-hex4 ps c h rest =
    let a = c / 256 / 16 % 16 in
    let b = c / 256 % 16 in
    let d = c % 256 / 16 % 16 in
    let e = c % 256 % 16 in
    let v = (0 * 16 + a) * 16 + b in
    lex-silent (in_string ps) (in_escape ps) 92 _ refl
    ∙ lex-silent (in_escape ps) (in_hex ps 0 3) b'u' _ refl
    ∙ hex_more ps 0 2 a (omega arith) _
    ∙ hex_more ps (0 * 16 + a) 1 b (omega arith) _
    ∙ hex_more ps v 0 d (omega arith) _
    ∙ hex_last ps (v * 16 + d) e (omega arith) rest
    ∙ ap (λ n. lex (in_string (ps ++ unit n ∷ [])) rest) (hex_number c h)

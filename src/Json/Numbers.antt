-- ===== src/Json/Numbers.antt =====
-- The scanner of encoding/json on what `%d` of fmt prints.
use mathlib.Core.Option.{map as map_option}
use mathlib.Core.List.{append_assoc, append-nil}
use mathlib.Core.Path.{subst}
use async_task_orchestrator.Prelude.{
  ℕ, zero, suc, ◌+◌, ◌/◌, ◌%◌, ◌<◌, ◌≤◌, ltb, Bool-cases, ◌≡◌, inl, inr, refl, sym, ap, ◌∙◌, arith,
  ℤ, pos, negsuc, Option, some, List, [], ◌∷◌, ◌++◌, All, Text,
}
use async_task_orchestrator.Fmt.{digits, decimal_nat, decimal, is_digit}
use async_task_orchestrator.Json.Lexer
use async_task_orchestrator.Json.Lexer.{
  Token, comma, number, Phase, leading_zero, signed, Mode, between, in_number, start, next_phase,
  after_number, accepting, react, lex, is_space,
}
use async_task_orchestrator.Json.Strings.{lex-silent, Eats}

abbrev IsDigit : ℕ → Type 0
IsDigit c = (48 ≤ c) × (c ≤ 57)

All-snoc : (s : Text) (c : ℕ) → All IsDigit s → IsDigit c → All IsDigit (s ++ c ∷ [])
All-snoc [] c h k = (k, tt)
All-snoc (d ∷ s) c (h, hs) k = (h, All-snoc s c hs k)

-- Digits with no zero in front.
record Numeral (s rest : Text) : Type 0 where
  first : ℕ
  more : Text
  form : s ≡ first ∷ (more ++ rest)
  low : 49 ≤ first
  high : first ≤ 57
  all : All IsDigit more

digits-Numeral : (fuel n : ℕ) (rest : Text) → n < fuel → 0 < n → Numeral (digits fuel n rest) rest
unfolding digits
digits-Numeral zero n rest h k = absurd (omega arith)
digits-Numeral (suc fuel) n rest h k = elim (Bool-cases (ltb n 10)) [
  | inl small ↦ record {
    first = 48 + n;
    more = [];
    form = rw small;
    low = omega arith;
    high = ground arith;
    all = tt;
  }
  | inr large ↦
      let r = digits-Numeral fuel (n / 10) ((48 + n % 10) ∷ rest) (ground arith) (ground arith) in
      record {
        first = r.first;
        more = r.more ++ (48 + n % 10) ∷ [];
        form =
            rw large (
              r.form ∙ ap (λ u. r.first ∷ u) (sym (append_assoc r.more ((48 + n % 10) ∷ []) rest)));
        low = r.low;
        high = r.high;
        all = All-snoc r.more (48 + n % 10) r.all (omega arith, omega arith);
      }
]

Eats-digits :
    (ds s : Text)
    → All IsDigit ds
    → Eats (in_number Lexer.digits s) ds (in_number Lexer.digits (s ++ ds))
unfolding react next_phase is_digit after_number
Eats-digits [] s h rest = ap (λ t. lex (in_number Lexer.digits t) rest) (sym (append-nil s))
Eats-digits (c ∷ ds) s (h, hs) rest =
    lex-silent _ (in_number Lexer.digits (s ++ c ∷ [])) c (ds ++ rest) (ground arith)
    ∙ Eats-digits ds (s ++ c ∷ []) hs rest
    ∙ ap (λ t. lex (in_number Lexer.digits t) rest) (append_assoc s (c ∷ []) ds)

-- The tokens of a number and of the comma after it.
abbrev pub after_comma : Text → Text → Option (List Token)
after_comma s rest = map_option (λ ts. number s ∷ comma ∷ ts) (lex between rest)

zero_ends : (s rest : Text) → lex (in_number leading_zero s) (44 ∷ rest) ≡ after_comma s rest
unfolding lex react next_phase after_number accepting start is_space
zero_ends s rest = refl

digits_end : (s rest : Text) → lex (in_number Lexer.digits s) (44 ∷ rest) ≡ after_comma s rest
unfolding lex react next_phase after_number accepting start is_space is_digit
digits_end s rest = refl

-- A mode in which a number, of which `s` was read, may go on with its first digit.
record Opens (m : Mode) (s : Text) : Type 0 where
  at_zero : react m 48 ≡ some (in_number leading_zero (s ++ 48 ∷ []), [])
  at_digit : (d : ℕ) → 49 ≤ d → d ≤ 57 → react m d ≡ some (in_number Lexer.digits (s ++ d ∷ []), [])

between-Opens : Opens between []
unfolding react start is_space
between-Opens = record { at_zero = refl; at_digit = λ d h k. ground arith }

signed-Opens : Opens (in_number signed (45 ∷ [])) (45 ∷ [])
unfolding react next_phase is_digit after_number
signed-Opens = record { at_zero = refl; at_digit = λ d h k. ground arith }

numeral_lex :
    (m : Mode) (s : Text) (d : ℕ) (ds rest : Text)
    → Opens m s
    → 49 ≤ d
    → d ≤ 57
    → All IsDigit ds
    → lex m ((d ∷ ds) ++ 44 ∷ rest) ≡ after_comma (s ++ d ∷ ds) rest
numeral_lex m s d ds rest o low high all =
    lex-silent m _ d (ds ++ 44 ∷ rest) (o.at_digit d low high)
    ∙ Eats-digits ds (s ++ d ∷ []) all (44 ∷ rest)
    ∙ digits_end ((s ++ d ∷ []) ++ ds) rest
    ∙ ap (λ u. after_comma u rest) (append_assoc s (d ∷ []) ds)

decimal_nat_zero : decimal_nat 0 ≡ 48 ∷ []
unfolding decimal_nat digits
decimal_nat_zero = refl

decimal_nat-Numeral : (n : ℕ) → 0 < n → Numeral (decimal_nat n) []
unfolding decimal_nat
decimal_nat-Numeral n h = digits-Numeral (suc n) n [] (omega arith) h

decimal_nat-lex :
    (m : Mode) (s : Text) (n : ℕ) (rest : Text)
    → Opens m s
    → lex m (decimal_nat n ++ 44 ∷ rest) ≡ after_comma (s ++ decimal_nat n) rest
decimal_nat-lex m s zero rest o =
    rw decimal_nat_zero (lex-silent m _ 48 (44 ∷ rest) o.at_zero ∙ zero_ends (s ++ 48 ∷ []) rest)
decimal_nat-lex m s (suc n) rest o =
    let r = decimal_nat-Numeral (suc n) (omega arith) in
    subst (λ u. lex m (u ++ 44 ∷ rest) ≡ after_comma (s ++ u) rest)
      (sym (r.form ∙ ap (λ u. r.first ∷ u) (append-nil r.more)))
      (numeral_lex m s r.first r.more rest o r.low r.high r.all)

minus_starts : react between 45 ≡ some (in_number signed (45 ∷ []), [])
unfolding react start is_space
minus_starts = refl

-- `%d` prints one number of JSON, and a comma ends it.
pub decimal-lex :
    (i : ℤ) (rest : Text) → lex between (decimal i ++ 44 ∷ rest) ≡ after_comma (decimal i) rest
unfolding decimal
decimal-lex (pos n) rest = decimal_nat-lex between [] n rest between-Opens
decimal-lex (negsuc n) rest =
    lex-silent between (in_number signed (45 ∷ [])) 45 _ minus_starts
    ∙ decimal_nat-lex (in_number signed (45 ∷ [])) (45 ∷ []) (n + 1) rest signed-Opens

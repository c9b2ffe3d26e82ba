-- ===== src/Prelude/Chars.antt =====
-- Texts from code points: the way back from `codes`.
use Prim.Native.Char.{Char, char, code, IsScalar}
use Prim.Native.Nat.{ℕ, ◌<◌}
use Prim.Native.String.{String}
use mathlib.Core.Path.{◌≡◌, refl, ap₂}
use mathlib.Core.Logic.{dite, ◌⊎◌}
use mathlib.Core.List.{[], ◌∷◌}
use native.Mathlib.Decide.{dec_lt}
use text.Mathlib.TextEquality.{Char-path}
use native.Mathlib.Omega.{arith}
use async_task_orchestrator.Prelude.Lists.{Text, codes, All}

pub IsScalar-low : (n : ℕ) → n < 55296 → IsScalar n
IsScalar-low n h = ground arith

pub IsScalar-high : (n : ℕ) → 57343 < n → n < 1114112 → IsScalar n
IsScalar-high n h k = ground arith

-- A code point that is no surrogate.
abbrev pub IsRune : ℕ → Type 0
IsRune n = ((n < 55296) ⊎ (57343 < n)) × (n < 1114112)

IsScalar-IsRune : (n : ℕ) → IsScalar n → IsRune n
IsScalar-IsRune n h = (ground arith, ground arith)

-- U+FFFD stands for a number that is no character.
abbrev replacement : Char
replacement = char 65533 tt

unfoldable above : ℕ → Char
above n =
    dite (dec_lt 57343 n)
      (λ h. dite (dec_lt n 1114112) (λ k. char n (IsScalar-high n h k)) (λ _. replacement))
      (λ _. replacement)

unfoldable to_char : ℕ → Char
unfolding above
to_char n = dite (dec_lt n 55296) (λ h. char n (IsScalar-low n h)) (λ _. above n)

-- string(rs) for a slice of runes.
unfoldable pub text_of : Text → String
unfolding to_char
text_of [] = String.[]
text_of (n ∷ s) = String.◌∷◌ (to_char n) (text_of s)

code-to_char : (n : ℕ) → IsScalar n → code (to_char n) ≡ n
unfolding to_char above
code-to_char n h = ground arith

pub text_of-codes : (s : String) → text_of (codes s) ≡ s
unfolding text_of
text_of-codes String.[] = refl
text_of-codes (String.◌∷◌ (char n p) s) =
    ap₂ String.◌∷◌ (Char-path (to_char n) (char n p) (code-to_char n p)) (text_of-codes s)

-- Every code point of a text is that of a character.
pub codes-IsRune : (s : String) → All IsRune (codes s)
codes-IsRune String.[] = tt
codes-IsRune (String.◌∷◌ (char n p) s) = (IsScalar-IsRune n p, codes-IsRune s)

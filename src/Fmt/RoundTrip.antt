-- ===== src/Fmt/RoundTrip.antt =====
-- `%d` and strconv.Atoi on each other.
use native.Mathlib.Numerals.{add-one}
use async_task_orchestrator.Prelude.{
  ltb→lt, ℕ, zero, suc, ◌+◌, ◌-◌, ◌*◌, ◌/◌, ◌%◌, ◌^◌, ◌<◌, ltb, ℤ, pos, negsuc, true, false, ◌≡◌,
  ◌≢◌, refl, ap, sym, ◌∙◌, arith, inl, inr, Bool-cases, some, [], ◌∷◌, Text,
}
use async_task_orchestrator.Fmt.{
  digits, decimal_nat, decimal, is_digit, read_digits, read_nat, in_range, negated, atoi,
}

digit-IsDigit : (d : ℕ) → d < 10 → is_digit (48 + d) ≡ true
unfolding is_digit
digit-IsDigit d h = ground arith

digit_value : (n d : ℕ) → n * 10 + (48 + d - 48) ≡ n * 10 + d
digit_value n d = omega arith

last_digit : (n : ℕ) → n / 10 * 10 + n % 10 ≡ n
last_digit n = omega arith

from_zero : (n : ℕ) → 0 + (48 + n - 48) ≡ n
from_zero n = omega arith

read_digits-digits :
    (fuel n : ℕ) (rest : Text) → n < fuel → read_digits 0 (digits fuel n rest) ≡ read_digits n rest
unfolding digits read_digits
read_digits-digits zero n rest h = absurd (omega arith)
read_digits-digits (suc fuel) n rest h = elim (Bool-cases (ltb n 10)) [
  | inl small ↦ rw small (rw (digit-IsDigit n (ltb→lt n 10 small), from_zero n))
  | inr large ↦ rw large (
      read_digits-digits fuel (n / 10) ((48 + n % 10) ∷ rest) (ground arith)
      ∙ (rw (digit-IsDigit (n % 10) (omega arith), digit_value (n / 10) (n % 10), last_digit n)
          refl))
]

-- The first character is a digit.
data Starts : Text → Type 0 where
  starts : (c : ℕ) (s : Text) → is_digit c ≡ true → Starts (c ∷ s)

digits-Starts : (fuel n : ℕ) (rest : Text) → n < fuel → Starts (digits fuel n rest)
unfolding digits is_digit
digits-Starts zero n rest h = absurd (omega arith)
digits-Starts (suc fuel) n rest h = elim (Bool-cases (ltb n 10)) [
  | inl small ↦ rw small (starts (48 + n) rest (ground arith))
  | inr large ↦ rw large (digits-Starts fuel (n / 10) ((48 + n % 10) ∷ rest) (ground arith))
]

pub read_digits-decimal_nat : (n : ℕ) → read_digits 0 (decimal_nat n) ≡ some n
unfolding decimal_nat read_digits
read_digits-decimal_nat n = read_digits-digits (suc n) n [] (omega arith)

read_nat-Starts : (s : Text) → Starts s → read_nat s ≡ read_digits 0 s
unfolding read_nat
read_nat-Starts [] h = elim h [ ]
read_nat-Starts (c ∷ s) h = refl

decimal_nat-Starts : (n : ℕ) → Starts (decimal_nat n)
unfolding decimal_nat
decimal_nat-Starts n = digits-Starts (suc n) n [] (omega arith)

atoi-Starts : (s : Text) → Starts s → atoi s ≡ in_range false (read_nat s)
unfolding atoi is_digit
atoi-Starts [] h = elim h [ ]
atoi-Starts (c ∷ s) (starts c' s' h) = ground arith

decimal_nat-injective : (a b : ℕ) → decimal_nat a ≡ decimal_nat b → a ≡ b
decimal_nat-injective a b h =
    cc (sym (read_digits-decimal_nat a) ∙ ap (read_digits 0) h ∙ read_digits-decimal_nat b)

Starts-ne-minus : (s t : Text) → Starts s → s ≢ 45 ∷ t
unfolding is_digit
Starts-ne-minus [] t h e = elim h [ ]
Starts-ne-minus (c ∷ s) t (starts c' s' h) e = ground arith

-- Different numbers print differently.
pub decimal-injective : (a b : ℤ) → decimal a ≡ decimal b → a ≡ b
unfolding decimal
decimal-injective (pos a) (pos b) h = ap pos (decimal_nat-injective a b h)
decimal-injective (pos a) (negsuc b) h =
    absurd (Starts-ne-minus (decimal_nat a) _ (decimal_nat-Starts a) h)
decimal-injective (negsuc a) (pos b) h =
    absurd (Starts-ne-minus (decimal_nat b) _ (decimal_nat-Starts b) (sym h))
decimal-injective (negsuc a) (negsuc b) h =
    let e = decimal_nat-injective (a + 1) (b + 1) (cc) in ap negsuc (omega arith)

atoi-decimal_pos : (n : ℕ) → n < 2 ^ 63 → atoi (decimal (pos n)) ≡ some (pos n)
unfolding decimal in_range
atoi-decimal_pos n h =
    rw
      (
        atoi-Starts (decimal_nat n) (decimal_nat-Starts n),
        read_nat-Starts (decimal_nat n) (decimal_nat-Starts n),
        read_digits-decimal_nat n,
      )
      (ground arith)

negated-add_one : (n : ℕ) → negated (n + 1) ≡ negsuc n
negated-add_one n = rw add-one

negative_range : (n : ℕ) → n < 2 ^ 63 → in_range true (some (n + 1)) ≡ some (negsuc n)
unfolding in_range
negative_range n h = ground (arith, negated-add_one n)

atoi-decimal_negsuc : (n : ℕ) → n < 2 ^ 63 → atoi (decimal (negsuc n)) ≡ some (negsuc n)
unfolding decimal atoi
atoi-decimal_negsuc n h =
    rw
      (
        read_nat-Starts (decimal_nat (n + 1)) (decimal_nat-Starts (n + 1)),
        read_digits-decimal_nat (n + 1),
      )
      (negative_range n h)

-- An int of 64 bits.
abbrev pub IsInt : ℤ → Type 0
IsInt (pos n) = n < 2 ^ 63
IsInt (negsuc n) = n < 2 ^ 63

-- strconv.Atoi reads back every int of 64 bits that `%d` prints.
pub atoi-decimal : (a : ℤ) → IsInt a → atoi (decimal a) ≡ some a
atoi-decimal (pos n) h = atoi-decimal_pos n h
atoi-decimal (negsuc n) h = atoi-decimal_negsuc n h

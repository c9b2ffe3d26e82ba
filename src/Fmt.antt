-- ===== src/Fmt.antt =====
-- What the program uses of fmt and strconv: `%d` and Atoi.
pub mod RoundTrip
pub mod Tests
use native.Mathlib.Nat.{mod-lt}
use async_task_orchestrator.Prelude.{
  ℕ, zero, suc, ◌+◌, ◌-◌, ◌*◌, ◌/◌, ◌%◌, ◌^◌, ◌≤◌, ◌<◌, ◌==◌, ltb, leb, ℤ, pos, negsuc, Bool, true,
  false, ◌&&◌, Option, none, some, List, [], ◌∷◌, ◌++◌, if◌then◌else◌, Text,
}

-- The digits of `n`, most significant first, in front of `rest`; the fuel bounds their number.
unfoldable pub digits : ℕ → ℕ → Text → Text
digits zero n rest = rest
digits (suc fuel) n rest =
    let more = digits fuel (n / 10) ((48 + n % 10) ∷ rest) in
    if ltb n 10 then (48 + n) ∷ rest else more

unfoldable pub decimal_nat : ℕ → Text
unfolding digits
decimal_nat n = digits (suc n) n []

-- fmt.Sprintf("%d", n)
unfoldable pub decimal : ℤ → Text
unfolding decimal_nat
decimal (pos n) = decimal_nat n
decimal (negsuc n) = 45 ∷ decimal_nat (n + 1)

unfoldable pub is_digit : ℕ → Bool
is_digit c = leb 48 c && leb c 57

-- The digits of a text, read after those that make `n`.
unfoldable pub read_digits : ℕ → Text → Option ℕ
unfolding is_digit
read_digits n [] = some n
read_digits n (c ∷ s) =
    let more = read_digits (n * 10 + (c - 48)) s in if is_digit c then more else none

-- -n
abbrev pub negated : ℕ → ℤ
negated zero = pos 0
negated (suc n) = negsuc n

-- The range of an int on a 64-bit platform.
unfoldable pub in_range : Bool → Option ℕ → Option ℤ
in_range negative none = none
in_range true (some n) = if leb n (2 ^ 63) then some (negated n) else none
in_range false (some n) = if ltb n (2 ^ 63) then some (pos n) else none

-- A number has at least one digit.
unfoldable pub read_nat : Text → Option ℕ
unfolding read_digits
read_nat [] = none
read_nat (c ∷ s) = read_digits 0 (c ∷ s)

-- strconv.Atoi: a sign or none, digits, and the range of an int.
unfoldable pub atoi : Text → Option ℤ
unfolding in_range read_nat
atoi [] = none
atoi (c ∷ s) =
    if c == 45
    then in_range true (read_nat s)
    else if c == 43
    then in_range false (read_nat s)
    else in_range false (read_nat (c ∷ s))

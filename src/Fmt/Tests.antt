-- ===== src/Fmt/Tests.antt =====
-- Numbers that are printed and read.
use async_task_orchestrator.Prelude.{◌≡◌, refl, negsuc, none, some, codes}
use async_task_orchestrator.Fmt.{
  decimal, decimal_nat, digits, atoi, in_range, read_nat, read_digits, is_digit,
}

printed : decimal (negsuc 41) ≡ codes "-42"
unfolding decimal decimal_nat digits
printed = refl

read_back : atoi (codes "-42") ≡ some (negsuc 41)
unfolding atoi in_range read_nat read_digits is_digit
read_back = refl

too_large : atoi (codes "9223372036854775808") ≡ none
unfolding atoi in_range read_nat read_digits is_digit
too_large = refl

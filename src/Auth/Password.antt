-- ===== src/Auth/Password.antt =====
-- internal/auth/password.go; bcrypt is not part of the repository.
use async_task_orchestrator.Prelude.{ℕ, String, ◌≡◌}
use async_task_orchestrator.Go.{Outcome, ok}

-- bcrypt.GenerateFromPassword at the default cost with a random salt, and CompareHashAndPassword.
pub record Bcrypt : Type 0 where
  pub generate : ℕ → String → Outcome String
  pub compare : String → String → Outcome (Unit {0})
  -- A hash compares with the password that it was made from.
  pub compare_generate :
      (salt : ℕ) (password hash : String)
      → generate salt password ≡ ok hash
      → compare hash password ≡ ok tt

module _ (b : Bcrypt) where
  unfoldable pub generate_password_hash : ℕ → String → Outcome String
  generate_password_hash salt password = b.generate salt password

  unfoldable pub compare_password_hash : String → String → Outcome (Unit {0})
  compare_password_hash hashed_password password = b.compare hashed_password password

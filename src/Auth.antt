-- ===== src/Auth.antt =====
-- internal/auth: passwords, JSON web tokens and the user of a request.
pub mod Password
pub mod Jwt
pub mod Context
pub mod Tokens
pub mod Tests

-- ===== src/User.antt =====
-- internal/user: users, their repository, service and controller. The struct `User` of
-- internal/user/model.go is `Sql.Tables.User`.
pub mod Repository
pub mod Service
pub mod Registration
pub mod Grows
pub mod Login
pub mod Controller
pub mod Tests

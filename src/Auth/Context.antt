-- ===== src/Auth/Context.antt =====
-- internal/auth/jwt.go: the user of a request.
use async_task_orchestrator.Prelude.{ℤ, String, Option, none, some}
use async_task_orchestrator.Go.{Outcome, ok, err, new}
use async_task_orchestrator.Http.{Any, int, other, Context, get_key}

abbrev pub user_id_key : String
user_id_key = "userID"

-- The type assertion `userID.(int)` after the test that the key exists.
unfoldable pub as_user_id : Option Any → Outcome ℤ
as_user_id none = err (new "user ID not found in context")
as_user_id (some (int id)) = ok id
as_user_id (some (other s)) = err (new "invalid user ID type")

unfoldable pub get_user_id_from_context : Context → Outcome ℤ
unfolding as_user_id
get_user_id_from_context ctx = as_user_id (get_key user_id_key ctx.keys)

-- ===== src/User/Tests.antt =====
-- Users of a database in memory.
use async_task_orchestrator.Prelude.{◌*◌, ◌≡◌, ◌⊎◌, refl, pos, String, Text, codes, [], ◌∷◌, some}
use async_task_orchestrator.Go.{Outcome, ok}
use async_task_orchestrator.Sql.Tables.{User, find_username, find_user, inserted}
use async_task_orchestrator.Http.{Context, failure}
use async_task_orchestrator.Auth.Jwt.{
  second, TokenPair, generate_token_pair, generate_token, refresh_token_pair, validate_token,
  checked, wrapped, key_of,
}
use async_task_orchestrator.Auth.Password.{generate_password_hash, compare_password_hash}
use async_task_orchestrator.User.Repository.{create, get_by_username}
use async_task_orchestrator.User.Service.{insert_in, store_user, create_user, compared, login_user}
use async_task_orchestrator.User.Registration.{Registered, create_user_done}
use async_task_orchestrator.User.Controller.{
  register, refresh_token_handler, refresh_bound, refresh_answer, is_expired_error,
}
use async_task_orchestrator.User.Login.{
  login_user_sound, create_user-login_user, register_taken, refresh_token_handler_refuses,
}
use async_task_orchestrator.Samples.Memory.{Memory, memory, memory-Laws, holding}
use async_task_orchestrator.Samples.Signer.{clear, clear-JwtLaws, plain}

abbrev empty : Memory
empty = holding [] [] []

registered : (create_user memory plain 0 "alice" "pa55word" empty).0 ≡ ok (pos 101)
unfolding create_user store_user insert_in create get_by_username generate_password_hash
    find_username find_user
registered = refl

create_user_done_example :
    Registered memory plain memory-Laws 0 "alice" "pa55word" empty
      (pos 101)
      (create_user memory plain 0 "alice" "pa55word" empty).1
create_user_done_example =
    create_user_done memory plain memory-Laws 0 "alice" "pa55word" empty (pos 101) registered

abbrev alice : User
alice = record { id = pos 101; username = "alice"; password = "pa55word"; created_at = 100 }

abbrev secret : Text
secret = 1 ∷ 2 ∷ []

abbrev tokens : TokenPair
tokens = record {
  access = 0 ∷ 101 ∷ 0 ∷ 900 * second ∷ 0 ∷ 0 ∷ secret;
  refresh = 0 ∷ 101 ∷ 1 ∷ 604800 * second ∷ 0 ∷ 0 ∷ secret;
  expires_in = 900;
}

abbrev with_alice : Memory
with_alice = holding [] (alice ∷ []) []

logged_in : (login_user memory plain clear 0 0 "alice" "pa55word" secret with_alice).0 ≡ ok tokens
unfolding login_user compared get_by_username compare_password_hash find_username
    generate_token_pair generate_token
logged_in = refl

login_user_sound_test :
    (u : User) × (find_username "alice" (memory-Laws.committed with_alice).users ≡ some u)
    × (plain.compare u.password "pa55word" ≡ ok tt)
    × (generate_token_pair clear 0 0 u.id secret ≡ ok tokens)
login_user_sound_test =
    login_user_sound memory plain memory-Laws clear secret 0 0 "alice" "pa55word" with_alice tokens
      logged_in

alice_found :
    (memory.user_by_username "alice" (create_user memory plain 0 "alice" "pa55word" empty).1).0
    ≡ ok alice
unfolding create_user store_user insert_in create get_by_username generate_password_hash
    find_username find_user inserted
alice_found = refl

create_user-login_user_example :
    (login_user memory plain clear 0 0 "alice" "pa55word" secret
      (create_user memory plain 0 "alice" "pa55word" empty).1).0
    ≡ generate_token_pair clear 0 0 (pos 101) secret
create_user-login_user_example =
    create_user-login_user memory plain memory-Laws clear secret 0 "alice" "pa55word" empty
      (pos 101) 0 0 alice registered alice_found

abbrev credentials : Text → Outcome (String × String)
credentials body = ok ("alice", "other")

abbrev request : Context
request = record { authorization = []; id_param = []; body = codes "{}"; keys = [] }

alice_taken : (memory.user_by_username "alice" with_alice).0 ≡ ok alice
unfolding find_username
alice_taken = refl

register_taken_test :
    ((register memory plain credentials 0 request with_alice).0
      ≡ ok (failure 409 "Username already exists"))
    × (memory-Laws.committed (register memory plain credentials 0 request with_alice).1
        ≡ memory-Laws.committed with_alice)
register_taken_test =
    register_taken memory plain memory-Laws credentials 0 request with_alice "alice" "other" alice
      refl alice_taken

abbrev expired : Text → Outcome Text
expired body = ok tokens.refresh

expired_answer :
    (refresh_token_handler expired clear (604800 * second) 0 0 secret request empty).0
    ≡ ok (failure 401 "Invalid refresh token")
unfolding refresh_token_handler refresh_bound refresh_answer is_expired_error refresh_token_pair
    validate_token checked wrapped key_of
expired_answer = refl

refresh_token_handler_refuses_example :
    ((p : TokenPair) × (refresh_token_pair clear (604800 * second) 0 0 tokens.refresh secret
        ≡ ok p))
    ⊎ (failure 401 "Invalid refresh token" ≡ failure 401 "Invalid refresh token")
refresh_token_handler_refuses_example =
    refresh_token_handler_refuses clear clear-JwtLaws secret expired (604800 * second) 0 0 request
      empty tokens.refresh (failure 401 "Invalid refresh token") refl expired_answer

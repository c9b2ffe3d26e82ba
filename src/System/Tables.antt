-- ===== src/System/Tables.antt =====
-- What internal/task and internal/worker keep of the two tables.
use mathlib.Core.Path.{subst}
use async_task_orchestrator.Prelude.{
  ℤ, =ℤ_iff, String, eq_iff, ◌≡◌, ◌≢◌, refl, sym, ap, ◌∙◌, arith, inl, inr, none, List, [], ◌∷◌,
  ◌++◌, All, All-append,
}
use async_task_orchestrator.Sql.Tables.{
  Task, User, Content, inserted, find_task, find_user, find_username,
}
use async_task_orchestrator.Task.Grows.{Grown}
use async_task_orchestrator.User.Grows.{Joined}
use async_task_orchestrator.Worker.Touched.{TouchAll, Touched}
use async_task_orchestrator.Worker.Touched.Statuses.{HasStatus, TouchAll-HasStatus}

-- No two tasks have the same identity.
abbrev pub HasKeys : List Task → Type 0
HasKeys [] = Unit
HasKeys (t ∷ ts) = (find_task t.id ts ≡ none) × HasKeys ts

find_task-append :
    (j : ℤ) (ts : List Task) (u : Task)
    → find_task j ts ≡ none
    → u.id ≢ j
    → find_task j (ts ++ u ∷ []) ≡ none
unfolding find_task
find_task-append j [] u h ne = ground (arith, =ℤ_iff u.id j)
find_task-append j (t ∷ ts) u h ne = ground (arith, find_task-append j ts u)

HasKeys-append :
    (ts : List Task) (u : Task) → HasKeys ts → find_task u.id ts ≡ none → HasKeys (ts ++ u ∷ [])
unfolding find_task
HasKeys-append [] u h f = (refl, tt)
HasKeys-append (t ∷ ts) u (h, hs) f =
    let other : u.id ≢ t.id = λ e. ground (arith, =ℤ_iff t.id u.id, sym e) in
    (find_task-append t.id ts u h other, HasKeys-append ts u hs (ground arith))

find_task-Touch :
    (key j : ℤ) (ts us : List Task)
    → TouchAll key ts us
    → find_task j ts ≡ none
    → find_task j us ≡ none
unfolding find_task
find_task-Touch key j [] [] h f = refl
find_task-Touch key j (t ∷ ts) (u ∷ us) (h, hs) f =
    ground (arith, h.same_id, find_task-Touch key j ts us hs)
find_task-Touch key j [] (u ∷ us) h f = absurd h
find_task-Touch key j (t ∷ ts) [] h f = absurd h

HasKeys-Touch : (key : ℤ) (ts us : List Task) → TouchAll key ts us → HasKeys ts → HasKeys us
HasKeys-Touch key [] [] h k = tt
HasKeys-Touch key (t ∷ ts) (u ∷ us) (h, hs) (k, ks) = (
  ap (λ j. find_task j us) h.same_id ∙ find_task-Touch key t.id ts us hs k,
  HasKeys-Touch key ts us hs ks,
)
HasKeys-Touch key [] (u ∷ us) h k = absurd h
HasKeys-Touch key (t ∷ ts) [] h k = absurd h

-- No two users have the same identity or the same name.
abbrev pub HasNames : List User → Type 0
HasNames [] = Unit
HasNames (u ∷ us) = (find_user u.id us ≡ none) × (find_username u.username us ≡ none) × HasNames us

find_user-append :
    (j : ℤ) (us : List User) (v : User)
    → find_user j us ≡ none
    → v.id ≢ j
    → find_user j (us ++ v ∷ []) ≡ none
unfolding find_user
find_user-append j [] v h ne = ground (arith, =ℤ_iff v.id j)
find_user-append j (u ∷ us) v h ne = ground (arith, find_user-append j us v)

find_username-append :
    (name : String) (us : List User) (v : User)
    → find_username name us ≡ none
    → v.username ≢ name
    → find_username name (us ++ v ∷ []) ≡ none
unfolding find_username
find_username-append name [] v h ne = ground (arith, eq_iff v.username name)
find_username-append name (u ∷ us) v h ne = ground (arith, find_username-append name us v)

HasNames-append :
    (us : List User) (v : User)
    → HasNames us
    → find_user v.id us ≡ none
    → find_username v.username us ≡ none
    → HasNames (us ++ v ∷ [])
unfolding find_user find_username
HasNames-append [] v h f g = (refl, refl, tt)
HasNames-append (u ∷ us) v (i, n, h) f g =
    let other : v.id ≢ u.id = λ e. ground (arith, =ℤ_iff u.id v.id, sym e) in
    let named : v.username ≢ u.username =
      λ e. ground (arith, eq_iff u.username v.username, sym e) in
    (
      find_user-append u.id us v i other,
      find_username-append u.username us v n named,
      HasNames-append us v h (ground arith) (ground arith),
    )

-- What must hold of the tables at any time: a task has one of the four statuses, no two tasks have
-- the same identity, and no two users have the same identity or the same name.
abbrev pub Sound : Content → Type 0
Sound c = All HasStatus c.tasks × HasKeys c.tasks × HasNames c.users

pub Grown-Sound : (before now : Content) → Grown "PENDING" before now → Sound before → Sound now
Grown-Sound before now (inl same) h = subst Sound (sym same) h
Grown-Sound before now (inr (key, time, user_id, task_type, fresh, stored)) (s, k, n) =
    subst Sound (sym stored) (
      unfold inserted in
      (
        All-append HasStatus before.tasks _ s (inl refl, tt),
        HasKeys-append before.tasks _ k fresh,
        n,
      ))

pub Joined-Sound :
    (Given : String → String → Type 0) (before now : Content)
    → Joined Given before now
    → Sound before
    → Sound now
Joined-Sound Given before now (inl same) h = subst Sound (sym same) h
Joined-Sound Given before now (inr (id, time, username, hash, given, name_free, id_free, stored))
      (s, k, n) =
    subst Sound (sym stored)
      (unfold inserted in (s, k, HasNames-append before.users _ n id_free name_free))

pub Touched-Sound :
    (key : ℤ) (before now : Content) → Touched key before now → Sound before → Sound now
Touched-Sound key before now (rows, users) (s, k, n) = (
  (TouchAll-HasStatus key before.tasks now.tasks rows s).0,
  HasKeys-Touch key before.tasks now.tasks rows k,
  subst HasNames (sym users) n,
)

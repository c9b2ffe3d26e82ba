-- ===== src/User/Grows.antt =====
-- What internal/user/service.go can do to the tables, however its operations end.
use mathlib.Core.Path.{subst}
use async_task_orchestrator.Prelude.{
  ℕ, ℤ, String, ◌≡◌, ◌⊎◌, inl, inr, refl, sym, ap, ◌∙◌, none, Text,
}
use async_task_orchestrator.Go.{Outcome, Outcome-cases, ok, err, panic}
use async_task_orchestrator.Sql.{Database, Laws}
use async_task_orchestrator.Sql.Tables.{Content, insert_user, inserted, find_user, find_username}
use async_task_orchestrator.Http.{Context}
use async_task_orchestrator.Auth.Password.{Bcrypt, generate_password_hash, compare_password_hash}
use async_task_orchestrator.Auth.Jwt.{Jwt}
use async_task_orchestrator.User.Repository.{create, get_by_username}
use async_task_orchestrator.User.Service.{insert_in, store_user, create_user, compared, login_user}
use async_task_orchestrator.User.Controller.{register_bound, register, login_bound, login}
use async_task_orchestrator.User.Registration.{cleaned}

-- The tables are as before, or have one more user, whose name and identity no user had, with a name
-- and a hash that are given.
abbrev pub Joined : (String → String → Type 0) → Content → Content → Type 0
Joined Given before now =
    (now ≡ before)
    ⊎ ((id : ℤ) × (time : ℕ) × (username : String) × (hash : String) × Given username hash
        × (find_username username before.users ≡ none)
        × (find_user id before.users ≡ none)
        × (now ≡ inserted time id (insert_user username hash) before))

-- What a request for a registration gives: its name, and a hash of its password.
abbrev pub Requested : Bcrypt → ℕ → Outcome (String × String) → String → String → Type 0
Requested b salt o username hash =
    (password : String) × (o ≡ ok (username, password))
    × (generate_password_hash b salt password ≡ ok hash)

module _ (q : Database) (b : Bcrypt) (laws : Laws q) where
  open laws use {committed}

  module _ (Given : String → String → Type 0) where
    insert_in_joins :
        (tx : q.Tx) (username hash : String) (d : q.Db)
        → Given username hash
        → (q.begin d).0 ≡ ok tx
        → Joined Given (committed d) (committed (insert_in q b tx username hash (q.begin d).1).1)
    unfolding insert_in create
    insert_in_joins tx username hash d given opened =
        let i = insert_user username hash in
        let d' = (q.begin d).1 in
        let start = laws.insert_keeps tx i d' ∙ laws.begin_keeps d in
        let sees = laws.begin_sees d tx opened in
        elim (Outcome-cases (q.insert tx i d').0) [
          | inl (key, done) ↦
              let d'' = (q.insert tx i d').1 in
              let (name_free, id_free) = laws.insert_user_new tx username hash d' key done in
              let wrote : Joined Given (committed d) (committed (q.commit tx d'').1) =
                elim (laws.commit_or_not tx d'') [
                  | inl same ↦ inl (same ∙ start)
                  | inr written ↦ inr (
                    key,
                    laws.now tx,
                    username,
                    hash,
                    given,
                    ap (λ c. find_username username c.users) (sym sees) ∙ name_free,
                    ap (λ c. find_user key c.users) (sym sees) ∙ id_free,
                    written
                        ∙ laws.insert_sees tx i d' key done
                        ∙ ap (inserted (laws.now tx) key i) sees,
                  )
                ] in
              elim (Outcome-cases (q.commit tx d'').0) [
                | inl (u, committed_it) ↦ rw (done, committed_it) wrote
                | inr (inl (e, failed)) ↦ rw (done, failed) wrote
                | inr (inr (p, failed)) ↦ rw (done, failed) wrote
              ]
          | inr (inl (e, failed)) ↦ rw failed (inl start)
          | inr (inr (p, failed)) ↦ rw failed (inl start)
        ]

    store_user_joins :
        (username : String) (o : Outcome String) (d : q.Db)
        → ((hash : String) → o ≡ ok hash → Given username hash)
        → Joined Given (committed d) (committed (store_user q b username o d).1)
    unfolding store_user
    store_user_joins username (ok hash) d given = elim (Outcome-cases (q.begin d).0) [
      | inl (tx, opened) ↦
          let (r, d') = insert_in q b tx username hash (q.begin d).1 in
          rw (opened, cleaned q b laws r tx d')
            (insert_in_joins tx username hash d (given hash refl) opened)
      | inr (inl (e, failed)) ↦ rw failed (inl (laws.begin_keeps d))
      | inr (inr (p, failed)) ↦ rw failed (inl (laws.begin_keeps d))
    ]
    store_user_joins username (err e) d given = inl refl
    store_user_joins username (panic p) d given = inl refl

    create_user_joins :
        (salt : ℕ) (username password : String) (d : q.Db)
        → ((hash : String) → generate_password_hash b salt password ≡ ok hash → Given username hash)
        → Joined Given (committed d) (committed (create_user q b salt username password d).1)
    unfolding create_user get_by_username
    create_user_joins salt username password d given =
        let keeps = laws.user_by_username_keeps username d in
        elim (Outcome-cases (q.user_by_username username d).0) [
          | inl (u, found) ↦ rw found (inl keeps)
          | inr (inl (e, missing)) ↦ rw missing (
              subst
                (λ c. Joined Given c (
                  committed
                    (store_user q b username (generate_password_hash b salt password)
                      (q.user_by_username username d).1).1))
                keeps (store_user_joins username (generate_password_hash b salt password) _ given))
          | inr (inr (p, failed)) ↦ rw failed (inl keeps)
        ]

  module _ (bind_credentials : Text → Outcome (String × String)) where
    bound_joins :
        (salt : ℕ) (o : Outcome (String × String)) (d : q.Db)
        → Joined
            (Requested b salt o)
            (committed d)
            (committed (register_bound q b bind_credentials salt o d).1)
    unfolding register_bound
    bound_joins salt (ok (username, password)) d =
        let given : (hash : String)
            → generate_password_hash b salt password ≡ ok hash
            → Requested b salt (ok (username, password)) username hash =
          λ hash h. (password, refl, h) in
        let joins =
          create_user_joins (Requested b salt (ok (username, password))) salt username password d
            given in
        elim (Outcome-cases (create_user q b salt username password d).0) [
          | inl (id, done) ↦ rw done joins
          | inr (inl (e, failed)) ↦ rw failed joins
          | inr (inr (p, failed)) ↦ rw failed joins
        ]
    bound_joins salt (err e) d = inl refl
    bound_joins salt (panic p) d = inl refl

    -- However the handler of `POST /auth/register` ends, the tables are as before, or have one more
    -- user, whose name and identity no user had, with the name and a hash of the password of the
    -- request.
    pub register_joins :
        (salt : ℕ) (ctx : Context) (d : q.Db)
        → Joined
            (Requested b salt (bind_credentials ctx.body))
            (committed d)
            (committed (register q b bind_credentials salt ctx d).1)
    unfolding register
    register_joins salt ctx d = bound_joins salt (bind_credentials ctx.body) d

    module _ (j : Jwt) (now now' : ℕ) (jwt_secret : Text) where
      login_user-keeps :
          (username password : String) (d : q.Db)
          → committed (login_user q b j now now' username password jwt_secret d).1 ≡ committed d
      unfolding login_user get_by_username compared
      login_user-keeps username password d =
          let keeps = laws.user_by_username_keeps username d in
          elim (Outcome-cases (q.user_by_username username d).0) [
            | inl (u, found) ↦ elim (Outcome-cases (compare_password_hash b u.password password)) [
              | inl (x, same) ↦ rw (found, same) keeps
              | inr (inl (e, differ)) ↦ rw (found, differ) keeps
              | inr (inr (p, failed)) ↦ rw (found, failed) keeps
            ]
            | inr (inl (e, missing)) ↦ rw missing keeps
            | inr (inr (p, failed)) ↦ rw failed keeps
          ]

      login_bound-keeps :
          (o : Outcome (String × String)) (d : q.Db)
          → committed (login_bound q b bind_credentials j now now' jwt_secret o d).1 ≡ committed d
      unfolding login_bound
      login_bound-keeps (ok (username, password)) d =
          let keeps = login_user-keeps username password d in
          elim (Outcome-cases (login_user q b j now now' username password jwt_secret d).0) [
            | inl (tokens, done) ↦ rw done keeps
            | inr (inl (e, failed)) ↦ rw failed keeps
            | inr (inr (p, failed)) ↦ rw failed keeps
          ]
      login_bound-keeps (err e) d = refl
      login_bound-keeps (panic p) d = refl

      pub login-keeps :
          (ctx : Context) (d : q.Db)
          → committed (login q b bind_credentials j now now' jwt_secret ctx d).1 ≡ committed d
      unfolding login
      login-keeps ctx d = login_bound-keeps (bind_credentials ctx.body) d

-- ===== src/User/Registration.antt =====
-- CreateUser of internal/user/service.go.
use async_task_orchestrator.Prelude.{ℕ, ℤ, String, ◌≡◌, inl, inr, sym, ap, ◌∙◌, arith, none}
use async_task_orchestrator.Go.{Outcome, Outcome-cases, ok, ignoring, ok-injective}
use async_task_orchestrator.Sql.{Database, Laws}
use async_task_orchestrator.Sql.Tables.{insert_user, inserted, find_user, find_username}
use async_task_orchestrator.Auth.Password.{Bcrypt, generate_password_hash}
use async_task_orchestrator.User.Repository.{create, get_by_username}
use async_task_orchestrator.User.Service.{insert_in, store_user, create_user}

module _ (q : Database) (b : Bcrypt) (laws : Laws q) where
  open laws use {committed}

  -- The row of a new user was committed.
  pub record Registered (salt : ℕ) (username password : String) (before : q.Db) (id : ℤ)
      (now : q.Db) : Type 0 where
    pub time : ℕ
    pub hash : String
    pub hashed : b.generate salt password ≡ ok hash
    pub name_free : find_username username (committed before).users ≡ none
    pub id_free : find_user id (committed before).users ≡ none
    pub stored : committed now ≡ inserted time id (insert_user username hash) (committed before)

  pub cleaned :
      {A : Type 0} (r : Outcome A) (tx : q.Tx) (d : q.Db)
      → committed (ignoring (q.rollback tx) (λ s. (r, s)) d).1 ≡ committed d
  cleaned r tx d = ground (arith, laws.rollback_keeps tx d)

  cleaned-ok :
      {A : Type 0} (r : Outcome A) (tx : q.Tx) (d : q.Db) (x : A)
      → (ignoring (q.rollback tx) (λ s. (r, s)) d).0 ≡ ok x
      → r ≡ ok x
  cleaned-ok r tx d x h = ground arith

  insert_in-ok :
      (tx : q.Tx) (username hash : String) (d : q.Db) (id : ℤ)
      → (insert_in q b tx username hash d).0 ≡ ok id
      → ((q.insert tx (insert_user username hash) d).0 ≡ ok id)
        × (committed (insert_in q b tx username hash d).1
            ≡ inserted (laws.now tx) id (insert_user username hash) (laws.seen tx d))
  unfolding insert_in create
  insert_in-ok tx username hash d id h =
      elim (Outcome-cases (q.insert tx (insert_user username hash) d).0) [
        | inl (key, done) ↦
            elim (Outcome-cases (q.commit tx (q.insert tx (insert_user username hash) d).1).0) [
              | inl (u, written) ↦
                  let e : key ≡ id = ok-injective (rw (done, written) at h) in
                  (
                    done ∙ ap ok e,
                    rw (done, written)
                        (laws.commit_writes tx _ written
                          ∙ laws.insert_sees tx _ d key done
                          ∙ ap
                              (λ k.
                                inserted (laws.now tx) k (insert_user username hash)
                                  (laws.seen tx d))
                              e),
                  )
              | inr (inl (e, failed)) ↦ absurd (cc (rw (done, failed) at h))
              | inr (inr (p, failed)) ↦ absurd (cc (rw (done, failed) at h))
            ]
        | inr (inl (e, failed)) ↦ absurd (cc (rw failed at h))
        | inr (inr (p, failed)) ↦ absurd (cc (rw failed at h))
      ]

  store_user-ok :
      (salt : ℕ) (username password hash : String) (d : q.Db) (id : ℤ)
      → b.generate salt password ≡ ok hash
      → (store_user q b username (ok hash) d).0 ≡ ok id
      → Registered salt username password d id (store_user q b username (ok hash) d).1
  unfolding store_user
  store_user-ok salt username password hash d id hashed h = elim (Outcome-cases (q.begin d).0) [
    | inl (tx, opened) ↦
        let d' = (q.begin d).1 in
        let (r, d'') = insert_in q b tx username hash d' in
        let (done, visible) =
          insert_in-ok tx username hash d' id (cleaned-ok r tx d'' id (rw opened at h)) in
        let sees = laws.begin_sees d tx opened in
        let (name_free, id_free) = laws.insert_user_new tx username hash d' id done in
        record {
          time = laws.now tx;
          hash = hash;
          hashed = hashed;
          name_free = ap (λ c. find_username username c.users) (sym sees) ∙ name_free;
          id_free = ap (λ c. find_user id c.users) (sym sees) ∙ id_free;
          stored = rw opened (
              cleaned r tx d''
              ∙ visible
              ∙ ap (inserted (laws.now tx) id (insert_user username hash)) sees);
        }
    | inr (inl (e, failed)) ↦ absurd (cc (rw failed at h))
    | inr (inr (p, failed)) ↦ absurd (cc (rw failed at h))
  ]

  looked_up :
      (username : String) (d : q.Db) → committed (q.user_by_username username d).1 ≡ committed d
  looked_up username d = laws.user_by_username_keeps username d

  from_lookup :
      (salt : ℕ) (username password : String) (d d' : q.Db) (id : ℤ) (now : q.Db)
      → committed d' ≡ committed d
      → Registered salt username password d' id now
      → Registered salt username password d id now
  from_lookup salt username password d d' id now e r = record {
    time = r.time;
    hash = r.hash;
    hashed = r.hashed;
    name_free = ap (λ c. find_username username c.users) (sym e) ∙ r.name_free;
    id_free = ap (λ c. find_user id c.users) (sym e) ∙ r.id_free;
    stored = r.stored ∙ ap (inserted r.time id (insert_user username r.hash)) e;
  }

  hashed_done :
      (salt : ℕ) (username password : String) (d : q.Db) (id : ℤ)
      → (store_user q b username (b.generate salt password) d).0 ≡ ok id
      → Registered salt username password d id
          (store_user q b username (b.generate salt password) d).1
  unfolding store_user
  hashed_done salt username password d id h = elim (Outcome-cases (b.generate salt password)) [
    | inl (hash, hashed) ↦
        rw hashed (store_user-ok salt username password hash d id hashed (rw hashed at h))
    | inr (inl (e, failed)) ↦ absurd (cc (rw failed at h))
    | inr (inr (p, failed)) ↦ absurd (cc (rw failed at h))
  ]

  -- When CreateUser returns an identity, neither it nor the name was taken before, and the one row
  -- that was added and committed has the name and a bcrypt hash of the password.
  pub create_user_done :
      (salt : ℕ) (username password : String) (d : q.Db) (id : ℤ)
      → (create_user q b salt username password d).0 ≡ ok id
      → Registered salt username password d id (create_user q b salt username password d).1
  unfolding create_user get_by_username generate_password_hash
  create_user_done salt username password d id h =
      elim (Outcome-cases (q.user_by_username username d).0) [
        | inl (u, found) ↦ absurd (cc (rw found at h))
        | inr (inl (e, missing)) ↦
            let d' = (q.user_by_username username d).1 in
            rw missing (
              from_lookup salt username password d d' id _ (looked_up username d)
                (hashed_done salt username password d' id (rw missing at h)))
        | inr (inr (p, failed)) ↦ absurd (cc (rw failed at h))
      ]

-- ===== src/Middleware/Users.antt =====
-- RateLimiterMiddleware of internal/middleware/rate_limiter.go over the requests of several users.
use async_task_orchestrator.Prelude.{
  ℕ, ◌/◌, ◌==◌, ℤ, pos, ◌=ℤ◌, =ℤ_iff, ◌≡◌, ◌≢◌, refl, ap, ◌∙◌, Bool-cases, inl, inr, some, List, [],
  ◌∷◌, map, if◌then◌else◌, arith, Text,
}
use mathlib.Core.Path.{subst}
use async_task_orchestrator.Go.{Outcome, ok}
use async_task_orchestrator.Http.{int, str, num, rate, Context, get_key, Handler, Response}
use async_task_orchestrator.Limiter.Config.{RateLimiterConfig}
use async_task_orchestrator.Limiter.Store.{eval_script, answers}
use async_task_orchestrator.Middleware.RateLimit.{
  Reply, ScriptRunner, user_rate_limiter_key, too_many_requests, rate_limiter_middleware,
}
use async_task_orchestrator.Middleware.Limits.{
  ScriptLaws, user_rate_limiter_key-injective, rate_limiter_runs,
}

-- A request of a user, at a time.
pub record Visit : Type 0 where
  pub user : ℤ
  pub now : ℕ
  pub ctx : Context
  pub known : get_key "userID" ctx.keys ≡ some (int user)

-- The times of the requests of one user.
unfoldable pub times_of : ℤ → List Visit → List ℕ
times_of u [] = []
times_of u (v ∷ vs) = let rest = times_of u vs in if v.user =ℤ u then v.now ∷ rest else rest

-- What the script's number means to the client: the answer of the handler, or 429.
unfoldable pub answered : RateLimiterConfig → Response → ℕ → Outcome Response
answered cfg x allowed =
    if allowed == 1
    then ok x
    else ok (record {
      status = 429;
      body =
          ("error", str "Rate limit exceeded")
          ∷ ("message", num (pos (cfg.refill_rate.num / cfg.refill_rate.den)))
          ∷ ("retry_after", rate (record { num = cfg.refill_rate.den; den = cfg.refill_rate.num }))
          ∷ [];
    })

module _ {S : Type 0} (redis : ScriptRunner S) (cfg : RateLimiterConfig) (next : Handler S) where
  -- The answers to the requests of one user, when the requests of all users come one by one.
  unfoldable pub answers_to : ℤ → List Visit → S → List (Outcome Response)
  answers_to u [] s = []
  answers_to u (v ∷ vs) s =
      let (x, s') = rate_limiter_middleware redis cfg v.now next v.ctx s in
      let rest = answers_to u vs s' in if v.user =ℤ u then x ∷ rest else rest

  module _ (laws : ScriptLaws redis) (x : Response)
      (runs : (key : Text) (now : ℕ) (s : S)
        → (r : Reply) × ((redis.eval_sha key cfg now s).0 ≡ ok r))
      (gives : (ctx : Context) (s : S) → (next ctx s).0 ≡ ok x)
      (keeps : (key : Text) (ctx : Context) (s : S)
        → laws.entry key (next ctx s).1 ≡ laws.entry key s) where
    open laws use {entry}

    -- One request: its answer, and what it leaves under the keys of its user and of the others.
    record Visited (v : Visit) (s : S) : Type 0 where
      answer :
          (rate_limiter_middleware redis cfg v.now next v.ctx s).0
          ≡ answered cfg x (eval_script cfg v.now (entry (user_rate_limiter_key v.user) s)).0
      own :
          entry
            (user_rate_limiter_key v.user)
            (rate_limiter_middleware redis cfg v.now next v.ctx s).1
          ≡ some (eval_script cfg v.now (entry (user_rate_limiter_key v.user) s)).1
      others :
          (u : ℤ)
          → v.user ≢ u
          → entry (user_rate_limiter_key u) (rate_limiter_middleware redis cfg v.now next v.ctx s).1
            ≡ entry (user_rate_limiter_key u) s

    visit-Visited : (v : Visit) (s : S) → Visited v s
    unfolding answered too_many_requests
    visit-Visited v s =
        let key = user_rate_limiter_key v.user in
        let (r, ran) = runs key v.now s in
        let e = rate_limiter_runs redis laws cfg v.now next v.ctx s v.user r v.known ran in
        let s' = (redis.eval_sha key cfg v.now s).1 in
        let (bit, own) = laws.runs key cfg v.now s r ran in
        let others = λ (u : ℤ) (ne : v.user ≢ u).
          laws.others key (user_rate_limiter_key u) cfg v.now s
            (λ k. ne (user_rate_limiter_key-injective v.user u k)) in
        elim (Bool-cases ((eval_script cfg v.now (entry key s)).0 == 1)) [
          | inl passes ↦
              let same : rate_limiter_middleware redis cfg v.now next v.ctx s ≡ next v.ctx s' =
                rw passes at e in
              record {
                answer = rw passes (ap (λ y. y.0) same ∙ gives v.ctx s');
                own = ap (λ y. entry key y.1) same ∙ keeps key v.ctx s' ∙ own;
                others = λ u ne.
                    ap (λ y. entry (user_rate_limiter_key u) y.1) same
                    ∙ keeps (user_rate_limiter_key u) v.ctx s'
                    ∙ others u ne;
              }
          | inr refuses ↦
              let same : rate_limiter_middleware redis cfg v.now next v.ctx s
                  ≡ (ok (too_many_requests cfg), s') =
                rw refuses at e in
              record {
                answer = rw refuses (ap (λ y. y.0) same);
                own = ap (λ y. entry key y.1) same ∙ own;
                others = λ u ne. ap (λ y. entry (user_rate_limiter_key u) y.1) same ∙ others u ne;
              }
        ]

    -- If Redis runs the script for every request, and the handler behind the limiter gives its
    -- answer to every request and leaves the limiter's keys alone: of the requests of any users in
    -- any order, those of one user get that answer or 429, with the texts of the configured rate,
    -- exactly as the script decides for the times of that user's own requests alone.
    pub rate_limiter_users :
        (u : ℤ) (vs : List Visit) (s : S)
        → answers_to u vs s
          ≡ map (answered cfg x) (answers cfg (entry (user_rate_limiter_key u) s) (times_of u vs))
    unfolding answers_to times_of answers
    rate_limiter_users u [] s = refl
    rate_limiter_users u (v ∷ vs) s =
        let h = visit-Visited v s in
        let s' = (rate_limiter_middleware redis cfg v.now next v.ctx s).1 in
        let rest = rate_limiter_users u vs s' in
        elim (Bool-cases (v.user =ℤ u)) [
          | inl same ↦
              let e : v.user ≡ u = (=ℤ_iff v.user u).0 same in
              let script = λ (k : ℤ). eval_script cfg v.now (entry (user_rate_limiter_key k) s) in
              let answer =
                subst
                  (λ k.
                    (rate_limiter_middleware redis cfg v.now next v.ctx s).0
                    ≡ answered cfg x (script k).0)
                  e h.answer in
              let own =
                subst (λ k. entry (user_rate_limiter_key k) s' ≡ some (script k).1) e h.own in
              rw same (
                ap (λ y. y ∷ answers_to u vs s') answer
                ∙ ap (λ l. answered cfg x (script u).0 ∷ l)
                    (rest ∙ ap (λ o. map (answered cfg x) (answers cfg o (times_of u vs))) own))
          | inr other ↦
              let ne : v.user ≢ u = λ e. ground (arith, (=ℤ_iff v.user u).1 e) in
              rw other (
                rest
                ∙ ap (λ o. map (answered cfg x) (answers cfg o (times_of u vs))) (h.others u ne))
        ]

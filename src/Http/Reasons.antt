-- ===== src/Http/Reasons.antt =====
-- Why a round of the retry loop of src/http/mod.rs ends the loop.
use ferrum_proxy.Common.{
  ℕ, ◌-◌, ◌≤◌, ◌<◌, ◌≡◌, ◌⊎◌, refl, sym, ap, if◌then◌else◌, inl, inr, String, false, Option, none,
  some, List, leb, ltb, string_eq, nat_eq, ◌==◌, Bool-cases, Duration, arith,
}
use ferrum_proxy.Config.{RouteConfig}
use ferrum_proxy.Upstream.Headers.{HeaderApi}
use ferrum_proxy.Upstream.Forward.{Message, Urls, RequestLine}
use ferrum_proxy.Http.State.{AppState, should_retry_status}
use ferrum_proxy.Http.Respond.{Reply, text, Asked, complete_request, no_healthy_backends_response}
use ferrum_proxy.Http.Exchange.{Outgoing, Incoming, select_backend}
use ferrum_proxy.Http.Retries.{
  backoff, RoundEnv, Budget, Round, finish, again, after_exchange, after_choice, round,
}

abbrev pub no_backend_text : ℕ → String
no_backend_text attempt =
    if attempt == 1
    then "no healthy backends available\n"
    else "retry attempts exhausted with no healthy backends remaining\n"

module _ {Sent Answered : Type 0} (budget : Budget) (attempt : ℕ) (e : RoundEnv Sent Answered) where
  -- What is so when a round goes on to the next.
  pub record GoesOn : Type 0 where
    pub left : attempt < budget.max_attempts
    pub in_time : e.elapsed < budget.total_timeout
    pub answered_in_time : e.elapsed_after < budget.total_timeout
    pub room :
        (budget.base_backoff_ms ≡ 0)
        ⊎ (backoff budget.base_backoff_ms attempt < budget.total_timeout - e.elapsed_before_sleep)

module _ {Sent Answered Map : Type 0} (route : RouteConfig) (budget : Budget) (attempt : ℕ)
    (attempted : List String) (e : RoundEnv Sent Answered) where
  -- The reasons for which a round ends the loop, with the backend that it sent the request to, if
  -- it did, and the state and the reply that it leaves.
  pub data Reason : Option String → AppState → Reply Map → Type 0 where
    settled :
        {b : String} {state : AppState} {reply : Reply Map}
        → should_retry_status state route reply.status ≡ false
        → Reason (some b) state reply
    no_attempt :
        {b : String} {state : AppState} {reply : Reply Map}
        → budget.max_attempts ≤ attempt
        → Reason (some b) state reply
    no_time :
        {b : String} {state : AppState} {reply : Reply Map}
        → budget.total_timeout ≤ e.elapsed_after
        → Reason (some b) state reply
    no_room :
        {b : String} {state : AppState} {reply : Reply Map}
        → 0 < budget.base_backoff_ms
        → budget.total_timeout - e.elapsed_before_sleep ≤ backoff budget.base_backoff_ms attempt
        → Reason (some b) state reply
    no_budget :
        {state : AppState} {reply : Reply Map}
        → budget.total_timeout ≤ e.elapsed
        → reply.status ≡ 504
        → Reason none state reply
    no_backend :
        {state : AppState} {reply : Reply Map} (before : AppState)
        → (select_backend e.clock route (some attempted) before).1 ≡ none
        → state.health.manager
          ≡ (select_backend e.clock route (some attempted) before).0.health.manager
        → reply.status ≡ 503
        → reply.body ≡ text (no_backend_text attempt)
        → Reason none state reply

  abbrev pub Explained : Round Map → Type 0
  Explained (finish sent (state, reply)) = Reason sent state reply
  Explained (again _ _) = GoesOn budget attempt e

module _ {Url Uri Map Value Rest : Type 0} (urls : Urls Url Uri) (api : HeaderApi Map Value)
    (no_headers : Map) (route : RouteConfig) (asked : Asked)
    (request : Message (RequestLine Uri Rest) Map (List ℕ)) (client_addr : Option String)
    (client_body_timeout : Duration) (budget : Budget) where
  after_exchange-Explained :
      (attempt : ℕ) (attempted : List String) (b : String)
      (e : RoundEnv (Outgoing Uri Rest Map) (Incoming Map)) (p : AppState × Reply Map)
      → e.elapsed < budget.total_timeout
      → Explained route budget attempt attempted e (
          after_exchange urls api no_headers route asked request client_addr client_body_timeout
            budget attempt b e p)
  unfolding after_exchange
  after_exchange-Explained attempt attempted b e (state, reply) now =
      elim (Bool-cases (should_retry_status state route reply.status)) [
        | inr settles ↦ rw settles (settled settles)
        | inl retries ↦ elim (Bool-cases (leb budget.max_attempts attempt)) [
          | inl last ↦ rw retries (rw last (no_attempt (ground arith)))
          | inr more ↦ elim (Bool-cases (leb budget.total_timeout e.elapsed_after)) [
            | inl late ↦ rw retries (rw more (rw late (no_time (ground arith))))
            | inr early ↦ elim (Bool-cases (ltb 0 budget.base_backoff_ms)) [
              | inr at_once ↦ rw retries (
                  rw more (
                    rw early (
                      rw at_once (record {
                        left = ground arith;
                        in_time = now;
                        answered_in_time = ground arith;
                        room = inl (ground arith);
                      }))))
              | inl sleeps ↦
                  elim (Bool-cases (
                    leb (budget.total_timeout - e.elapsed_before_sleep)
                      (backoff budget.base_backoff_ms attempt))) [
                        | inl full ↦ rw retries (
                            rw more (
                              rw early
                                (rw sleeps (rw full (no_room (ground arith) (ground arith))))))
                        | inr fits ↦ rw retries (
                            rw more (
                              rw early (
                                rw sleeps (
                                  rw fits (record {
                                    left = ground arith;
                                    in_time = now;
                                    answered_in_time = ground arith;
                                    room = inr (ground arith);
                                  })))))
                      ]
            ]
          ]
        ]
      ]

  after_choice-Explained :
      (attempt : ℕ) (attempted : List String) (e : RoundEnv (Outgoing Uri Rest Map) (Incoming Map))
      (before : AppState) (p : AppState × Option String)
      → e.elapsed < budget.total_timeout
      → select_backend e.clock route (some attempted) before ≡ p
      → Explained route budget attempt attempted e (
          after_choice urls api no_headers route asked request client_addr client_body_timeout
            budget attempt e p)
  unfolding after_choice no_healthy_backends_response complete_request
  after_choice-Explained attempt attempted e before (state, none) now q =
      let chosen = ap (λ p. p.1) q in
      let left = sym (ap (λ p. p.0.health.manager) q) in
      elim (Bool-cases (attempt == 1)) [
        | inl first ↦ rw first (no_backend before chosen left refl (rw first refl))
        | inr later ↦ rw later (no_backend before chosen left refl (rw later refl))
      ]
  after_choice-Explained attempt attempted e before (state, some b) now q =
      after_exchange-Explained attempt attempted b e _ now

  pub round-Explained :
      (attempt : ℕ) (attempted : List String) (e : RoundEnv (Outgoing Uri Rest Map) (Incoming Map))
      (state : AppState)
      → Explained route budget attempt attempted e (
          round urls api no_headers route asked request client_addr client_body_timeout budget
            attempt attempted e state)
  unfolding round complete_request
  round-Explained attempt attempted e state =
      elim (Bool-cases (leb budget.total_timeout e.elapsed)) [
        | inl late ↦ rw late (no_budget (ground arith) refl)
        | inr early ↦ rw early (
            after_choice-Explained attempt attempted e state
              (select_backend e.clock route (some attempted) state) (ground arith) refl)
      ]

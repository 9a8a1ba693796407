-- ===== src/Http/Permits.antt =====
-- The configuration and the permits of the semaphore in the steps of src/http/mod.rs.
use ferrum_proxy.Common.{
  ℕ, zero, suc, ◌+◌, ◌-◌, ◌≡◌, refl, sym, ◌∙◌, subst, inl, inr, String, not, ◌||◌, Option, none,
  some, List, [], leb, ltb, nat_eq, string_eq, ◌==◌, insert, Bool-cases, Result, ok, err, Duration,
  Instant, arith,
}
use ferrum_proxy.Config.{RouteConfig}
use ferrum_proxy.Upstream.Error.{UpstreamError}
use ferrum_proxy.Upstream.Headers.{HeaderApi}
use ferrum_proxy.Upstream.Body.{Item, Frame}
use ferrum_proxy.Upstream.Forward.{Message, Urls, RequestLine}
use ferrum_proxy.Http.State.{AppState, should_retry_status}
use ferrum_proxy.Http.Respond.{Reply, Asked, complete_request, no_healthy_backends_response}
use ferrum_proxy.Http.Exchange.{Wire, Outgoing, Incoming, select_backend, conclude, forward_request}
use ferrum_proxy.Http.Retries.{
  to_request, put_first, backoff, RoundEnv, Budget, budget_of, Round, finish, again, Outcome,
  after_exchange, after_choice, round, rounds, forward_with_retries,
}

-- The configuration and the free permits are what they were.
pub record IsSteady (before after : AppState) : Type 0 where
  pub config : after.config ≡ before.config
  pub permits : after.permits ≡ before.permits

-- Other tasks give back the permits that they take, and no task changes the configuration.
abbrev pub KeepsSteady : (AppState → AppState) → Type 0
KeepsSteady others = (s : AppState) → IsSteady s (others s)

pub IsSteady-trans : (a b c : AppState) → IsSteady a b → IsSteady b c → IsSteady a c
IsSteady-trans a b c x y = record { config = y.config ∙ x.config; permits = y.permits ∙ x.permits }

module _ {Map Value : Type 0} (api : HeaderApi Map Value) (no_headers : Map) where
  pub complete_request-IsSteady :
      (s : AppState) (asked : Asked) (backend : Option String) (latency : Duration)
      (reply : Reply Map) (k : Option String)
      → IsSteady s (complete_request api no_headers s asked backend latency reply k).0
  unfolding complete_request
  complete_request-IsSteady s asked backend latency reply k = record {
    config = refl;
    permits = refl;
  }

  conclude-IsSteady :
      (route : RouteConfig) (backend : String) (asked : Asked) (latency : Duration) (now : Instant)
      (completed : Duration) (result : Result UpstreamError (Message ℕ Map (List (Frame String))))
      (s : AppState)
      → IsSteady s (conclude api no_headers route backend asked latency now completed result s).0
  unfolding conclude complete_request
  conclude-IsSteady route backend asked latency now completed (ok r) s = record {
    config = refl;
    permits = refl;
  }
  conclude-IsSteady route backend asked latency now completed (err e) s = record {
    config = refl;
    permits = refl;
  }

  pub no_healthy-IsSteady :
      (s : AppState) (asked : Asked) (latency : Duration)
      → IsSteady s (no_healthy_backends_response api no_headers s asked latency).0
  unfolding no_healthy_backends_response complete_request
  no_healthy-IsSteady s asked latency = record { config = refl; permits = refl }

pub select_backend-IsSteady :
    (clock : ℕ → Instant) (route : RouteConfig) (attempted : Option (List String)) (s : AppState)
    → IsSteady s (select_backend clock route attempted s).0
unfolding select_backend
select_backend-IsSteady clock route attempted s = record { config = refl; permits = refl }

module _ {Url Uri Map Value Rest : Type 0} (urls : Urls Url Uri) (api : HeaderApi Map Value)
    (no_headers : Map) (route : RouteConfig) (asked : Asked) where
  pub forward_request-IsSteady :
      (backend : String) (request : Message (RequestLine Uri Rest) Map (List (Item String)))
      (client_addr : Option String) (timeout : Duration)
      (wire : Wire (Outgoing Uri Rest Map) (Incoming Map)) (s : AppState)
      → KeepsSteady wire.meanwhile
      → IsSteady s
          (forward_request urls api no_headers route backend asked request client_addr timeout wire
            s).0
  unfolding forward_request
  forward_request-IsSteady backend request client_addr timeout wire s keeps =
      IsSteady-trans s (wire.meanwhile s) _ (keeps s) (
        conclude-IsSteady api no_headers route backend asked wire.latency wire.now wire.completed _
          (wire.meanwhile s))

put_first-some :
    {Map : Type 0} (b : String) (o : Option (Outcome Map)) (out : Outcome Map)
    → put_first b o ≡ some out
    → (inner : Outcome Map) × (o ≡ some inner) × (out.state ≡ inner.state)
put_first-some b none out h = absurd (ground arith)
put_first-some b (some inner) out h = (inner, refl, ground arith)

-- What the other tasks do in a round is steady.
pub record KeepsRound {Sent Answered : Type 0} (e : RoundEnv Sent Answered) : Type 0 where
  pub meanwhile : KeepsSteady e.wire.meanwhile
  pub asleep : KeepsSteady e.asleep

abbrev SteadyRound : {Map : Type 0} → AppState → Round Map → Type 0
SteadyRound s (finish _ (s', _)) = IsSteady s s'
SteadyRound s (again _ s') = IsSteady s s'

module _ {Url Uri Map Value Rest : Type 0} (urls : Urls Url Uri) (api : HeaderApi Map Value)
    (no_headers : Map) (route : RouteConfig) (asked : Asked)
    (request : Message (RequestLine Uri Rest) Map (List ℕ)) (client_addr : Option String)
    (client_body_timeout : Duration) (budget : Budget) where
  after_exchange-steady :
      (attempt : ℕ) (b : String) (e : RoundEnv (Outgoing Uri Rest Map) (Incoming Map))
      (s : AppState) (p : AppState × Reply Map)
      → KeepsRound e
      → IsSteady s p.0
      → SteadyRound s (
          after_exchange urls api no_headers route asked request client_addr client_body_timeout
            budget attempt b e p)
  unfolding after_exchange
  after_exchange-steady attempt b e s (t, reply) keeps h =
      elim (Bool-cases (
        not (should_retry_status t route reply.status)
        || leb budget.max_attempts attempt
        || leb budget.total_timeout e.elapsed_after)) [
          | inl stop ↦ rw stop h
          | inr on ↦ rw on (elim (Bool-cases (ltb 0 budget.base_backoff_ms)) [
            | inl sleeps ↦
                rw sleeps
                  (elim (Bool-cases (
                    leb (budget.total_timeout - e.elapsed_before_sleep)
                      (backoff budget.base_backoff_ms attempt))) [
                        | inl late ↦ rw late (record { config = h.config; permits = h.permits })
                        | inr early ↦ rw early (record {
                          config = (keeps.asleep _).config ∙ h.config;
                          permits = (keeps.asleep _).permits ∙ h.permits;
                        })
                      ])
            | inr at_once ↦ rw at_once (record { config = h.config; permits = h.permits })
          ])
        ]

  after_choice-steady :
      (attempt : ℕ) (e : RoundEnv (Outgoing Uri Rest Map) (Incoming Map)) (s : AppState)
      (p : AppState × Option String)
      → KeepsRound e
      → IsSteady s p.0
      → SteadyRound s (
          after_choice urls api no_headers route asked request client_addr client_body_timeout
            budget attempt e p)
  unfolding after_choice no_healthy_backends_response complete_request
  after_choice-steady attempt e s (t, none) keeps h = elim (Bool-cases (attempt == 1)) [
    | inl first ↦ rw first (record { config = h.config; permits = h.permits })
    | inr later ↦ rw later (record { config = h.config; permits = h.permits })
  ]
  after_choice-steady attempt e s (t, some b) keeps h =
      after_exchange-steady attempt b e s _ keeps (
        IsSteady-trans s t _ h (
          forward_request-IsSteady urls api no_headers route asked b (to_request api request)
            client_addr client_body_timeout e.wire t keeps.meanwhile))

  round-steady :
      (attempt : ℕ) (attempted : List String) (e : RoundEnv (Outgoing Uri Rest Map) (Incoming Map))
      (s : AppState)
      → KeepsRound e
      → SteadyRound s (
          round urls api no_headers route asked request client_addr client_body_timeout budget
            attempt attempted e s)
  unfolding round complete_request
  round-steady attempt attempted e s keeps =
      elim (Bool-cases (leb budget.total_timeout e.elapsed)) [
        | inl late ↦ rw late (record { config = refl; permits = refl })
        | inr early ↦ rw early (
            after_choice-steady attempt e s _ keeps
              (select_backend-IsSteady e.clock route (some attempted) s))
      ]

  pub rounds-IsSteady :
      (fuel attempt : ℕ) (attempted : List String)
      (envs : ℕ → RoundEnv (Outgoing Uri Rest Map) (Incoming Map)) (s : AppState)
      (out : Outcome Map)
      → ((n : ℕ) → KeepsRound (envs n))
      → rounds urls api no_headers route asked request client_addr client_body_timeout budget fuel
          attempt attempted envs s
        ≡ some out
      → IsSteady s out.state
  unfolding rounds
  rounds-IsSteady zero attempt attempted envs s out keeps h = absurd (ground arith)
  rounds-IsSteady (suc fuel) attempt attempted envs s out keeps h =
      go
        (round urls api no_headers route asked request client_addr client_body_timeout budget
          attempt attempted (envs attempt) s)
        refl (round-steady attempt attempted (envs attempt) s (keeps attempt))
        (λ b t o. rounds-IsSteady fuel (attempt + 1) (insert b attempted) envs t o keeps)
    where
      go :
          (r : Round Map)
          → round urls api no_headers route asked request client_addr client_body_timeout budget
              attempt attempted
              (envs attempt)
              s
            ≡ r
          → SteadyRound s r
          → ((b : String) (t : AppState) (o : Outcome Map)
              → rounds urls api no_headers route asked request client_addr client_body_timeout
                  budget fuel
                  (attempt + 1)
                  (insert b attempted)
                  envs
                  t
                ≡ some o
              → IsSteady t o.state)
          → IsSteady s out.state
      go (finish sent (t, reply)) e v later =
          let same : t ≡ out.state = ground (arith, e, h) in subst (λ x. IsSteady s x) same v
      go (again b t) e v later =
          let (inner, q, same) =
            put_first-some b
              (rounds urls api no_headers route asked request client_addr client_body_timeout budget
                fuel (attempt + 1) (insert b attempted) envs t)
              out (ground (arith, e, h)) in
          subst (λ x. IsSteady s x) (sym same)
            (IsSteady-trans s t inner.state v (later b t inner q))

pub forward_with_retries-IsSteady :
    {Url Uri Map Value Rest : Type 0} (urls : Urls Url Uri) (api : HeaderApi Map Value)
    (no_headers : Map) (route : RouteConfig) (asked : Asked)
    (request : Message (RequestLine Uri Rest) Map (List ℕ)) (client_addr : Option String)
    (timeout : Duration) (envs : ℕ → RoundEnv (Outgoing Uri Rest Map) (Incoming Map)) (s : AppState)
    (out : Outcome Map)
    → ((n : ℕ) → KeepsRound (envs n))
    → forward_with_retries urls api no_headers route asked request client_addr timeout envs s
      ≡ some out
    → IsSteady s out.state
unfolding forward_with_retries
forward_with_retries-IsSteady urls api no_headers route asked request client_addr timeout envs s out
      keeps h =
    rounds-IsSteady urls api no_headers route asked request client_addr timeout (budget_of s)
      (suc s.config.retry.max_attempts) 1 [] envs s out keeps h

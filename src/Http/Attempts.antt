-- ===== src/Http/Attempts.antt =====
-- The rounds of the retry loop of src/http/mod.rs, and the backends that they send to.
use ferrum_proxy.Common.{
  ℕ, zero, suc, ◌+◌, ◌≤◌, ◌<◌, ◌≡◌, refl, ap, subst, ◌≢◌, ◌⊎◌, inl, inr, String, Bool, true, false,
  not, ◌||◌, ◌-◌, Option, none, some, List, [], ◌∷◌, length, leb, ltb, contains, insert,
  contains-insert, In, In-filter, All, string_eq, nat_eq, ◌==◌, ==_refl, Bool-cases, Duration,
  Instant, arith,
}
use ferrum_proxy.Config.{RouteConfig}
use ferrum_proxy.Balancing.Selection.{select_backend_lem}
use ferrum_proxy.Health.Manager.{
  HealthManager, is_offered, keep_if, offered_backends, healthy_backends,
}
use ferrum_proxy.Upstream.Headers.{HeaderApi}
use ferrum_proxy.Upstream.Forward.{Message, Urls, RequestLine}
use ferrum_proxy.Http.State.{AppState, should_retry_status}
use ferrum_proxy.Http.Respond.{Reply, Asked}
use ferrum_proxy.Http.Exchange.{Outgoing, Incoming, eligible, select_backend}
use ferrum_proxy.Http.Retries.{
  backoff, RoundEnv, Budget, budget_of, Round, finish, again, Outcome, after_exchange, after_choice,
  round, rounds, forward_with_retries,
}

In-keep_if : (t : Bool) (b c : String) (l : List String) → In b (keep_if t c l) → (b ≡ c) ⊎ In b l
In-keep_if true b c l i = i
In-keep_if false b c l i = inr i

offered_backends-In :
    (clock : ℕ → Instant) (b : String) (l : List String) (m : HealthManager)
    → In b (offered_backends clock l m).1
    → In b l
unfolding offered_backends
offered_backends-In clock b [] m i = i
offered_backends-In clock b (c ∷ l) m i =
    let m' = (is_offered (clock 0) c m).0 in
    let later : ℕ → Instant = λ n. clock (suc n) in
    elim (In-keep_if (is_offered (clock 0) c m).1 b c (offered_backends later l m').1 i) [
      | inl e ↦ inl e
      | inr j ↦ inr (offered_backends-In later b l m' j)
    ]

-- A backend of the route that the request has not been sent to.
abbrev pub IsFresh : RouteConfig → List String → String → Type 0
IsFresh route attempted b = In b route.backends × (contains attempted b ≡ false)

select_backend-IsFresh :
    (clock : ℕ → Instant) (route : RouteConfig) (attempted : List String) (state : AppState)
    (b : String)
    → (select_backend clock route (some attempted) state).1 ≡ some b
    → IsFresh route attempted b
unfolding select_backend healthy_backends
select_backend-IsFresh clock route attempted state b h =
    let healthy = (offered_backends clock route.backends state.health.manager).1 in
    elim (select_backend_lem state.balancer route (eligible (some attempted) healthy)) [
      | inl (_, e) ↦ let x = ap (λ p. p.1) e in absurd (ground arith)
      | inr (_, (c, e, m)) ↦
          let same : c ≡ b = ground arith in
          let (i, new) = In-filter (λ x. not (contains attempted x)) c healthy m in
          subst (IsFresh route attempted) same
            (offered_backends-In clock c route.backends _ i, ground arith)
    ]

-- Each backend of the list is fresh when its turn comes.
abbrev AreFresh : RouteConfig → List String → List String → Type 0
AreFresh route attempted [] = Unit
AreFresh route attempted (b ∷ bs) =
    IsFresh route attempted b × AreFresh route (insert b attempted) bs

module _ {Map : Type 0} (route : RouteConfig) (max_attempts attempt : ℕ)
    (attempted : List String) where
  -- A round sends to a fresh backend, and only goes on while attempts are left.
  abbrev pub IsFair : Round Map → Type 0
  IsFair (finish none _) = Unit
  IsFair (finish (some b) _) = IsFresh route attempted b
  IsFair (again b _) = IsFresh route attempted b × (attempt < max_attempts)

module _ {Url Uri Map Value Rest : Type 0} (urls : Urls Url Uri) (api : HeaderApi Map Value)
    (no_headers : Map) (route : RouteConfig) (asked : Asked)
    (request : Message (RequestLine Uri Rest) Map (List ℕ)) (client_addr : Option String)
    (client_body_timeout : Duration) (budget : Budget) where
  after_exchange-IsFair :
      (attempt : ℕ) (attempted : List String) (b : String)
      (e : RoundEnv (Outgoing Uri Rest Map) (Incoming Map)) (p : AppState × Reply Map)
      → IsFresh route attempted b
      → IsFair route budget.max_attempts attempt attempted (
          after_exchange urls api no_headers route asked request client_addr client_body_timeout
            budget attempt b e p)
  unfolding after_exchange
  after_exchange-IsFair attempt attempted b e (state, reply) fresh =
      elim (Bool-cases (
        not (should_retry_status state route reply.status)
        || leb budget.max_attempts attempt
        || leb budget.total_timeout e.elapsed_after)) [
          | inl stop ↦ rw stop fresh
          | inr on ↦ rw on (elim (Bool-cases (ltb 0 budget.base_backoff_ms)) [
            | inl sleeps ↦
                rw sleeps
                  (elim (Bool-cases (
                    leb (budget.total_timeout - e.elapsed_before_sleep)
                      (backoff budget.base_backoff_ms attempt))) [
                        | inl late ↦ rw late fresh
                        | inr early ↦ rw early (fresh, ground arith)
                      ])
            | inr at_once ↦ rw at_once (fresh, ground arith)
          ])
        ]

  after_choice-IsFair :
      (attempt : ℕ) (attempted : List String) (e : RoundEnv (Outgoing Uri Rest Map) (Incoming Map))
      (p : AppState × Option String)
      → ((b : String) → p.1 ≡ some b → IsFresh route attempted b)
      → IsFair route budget.max_attempts attempt attempted (
          after_choice urls api no_headers route asked request client_addr client_body_timeout
            budget attempt e p)
  unfolding after_choice
  after_choice-IsFair attempt attempted e (state, none) fresh = elim (Bool-cases (attempt == 1)) [
    | inl first ↦ rw first tt
    | inr later ↦ rw later tt
  ]
  after_choice-IsFair attempt attempted e (state, some b) fresh =
      after_exchange-IsFair attempt attempted b e _ (fresh b refl)

  pub round-IsFair :
      (attempt : ℕ) (attempted : List String) (e : RoundEnv (Outgoing Uri Rest Map) (Incoming Map))
      (state : AppState)
      → IsFair route budget.max_attempts attempt attempted (
          round urls api no_headers route asked request client_addr client_body_timeout budget
            attempt attempted e state)
  unfolding round
  round-IsFair attempt attempted e state = elim (Bool-cases (leb budget.total_timeout e.elapsed)) [
    | inl late ↦ rw late tt
    | inr early ↦ rw early (
        after_choice-IsFair attempt attempted e
          (select_backend e.clock route (some attempted) state)
          (λ b h. select_backend-IsFresh e.clock route attempted state b h))
  ]

  abbrev IsEnd : ℕ → List String → Option (Outcome Map) → Type 0
  IsEnd attempt attempted o =
      (out : Outcome Map) × (o ≡ some out)
      × AreFresh route attempted out.sent
      × (length out.sent + attempt ≤ budget.max_attempts + 1)

  rounds-IsEnd :
      (fuel attempt : ℕ) (attempted : List String)
      (envs : ℕ → RoundEnv (Outgoing Uri Rest Map) (Incoming Map)) (state : AppState)
      → budget.max_attempts < fuel + attempt
      → attempt ≤ budget.max_attempts
      → IsEnd attempt attempted (
          rounds urls api no_headers route asked request client_addr client_body_timeout budget fuel
            attempt attempted envs state)
  unfolding rounds
  rounds-IsEnd zero attempt attempted envs state room low = absurd (omega arith)
  rounds-IsEnd (suc fuel) attempt attempted envs state room low =
      go
        (round urls api no_headers route asked request client_addr client_body_timeout budget
          attempt attempted (envs attempt) state)
        refl (round-IsFair attempt attempted (envs attempt) state)
        (λ b s more.
          rounds-IsEnd fuel (attempt + 1) (insert b attempted) envs s (omega arith) (omega arith))
    where
      go :
          (r : Round Map)
          → round urls api no_headers route asked request client_addr client_body_timeout budget
              attempt attempted
              (envs attempt)
              state
            ≡ r
          → IsFair route budget.max_attempts attempt attempted r
          → ((b : String) (s : AppState)
              → attempt < budget.max_attempts
              → IsEnd (attempt + 1) (insert b attempted) (
                  rounds urls api no_headers route asked request client_addr client_body_timeout
                    budget fuel
                    (attempt + 1)
                    (insert b attempted)
                    envs
                    s))
          → IsEnd attempt attempted (
              rounds urls api no_headers route asked request client_addr client_body_timeout budget
                (suc fuel)
                attempt
                attempted
                envs
                state)
      go (finish none (s, reply)) e fair later =
          (record { sent = []; state = s; reply = reply }, ground (arith, e), tt, ground arith)
      go (finish (some b) (s, reply)) e fair later = (
        record { sent = b ∷ []; state = s; reply = reply },
        ground (arith, e),
        (fair, tt),
        ground arith,
      )
      go (again b s) e (fresh, more) later =
          let (out, q, f, bound) = later b s more in
          (record out { sent = b ∷ out.sent }, ground (arith, e, q), (fresh, f), ground arith)

-- No text stands twice in the list.
abbrev pub NoRepeat : List String → Type 0
NoRepeat [] = Unit
NoRepeat (b ∷ bs) = All (λ c. c ≢ b) bs × NoRepeat bs

module _ (route : RouteConfig) where
  AreFresh-others :
      (attempted : List String) (b : String) (bs : List String)
      → contains attempted b ≡ true
      → AreFresh route attempted bs
      → All (λ c. c ≢ b) bs
  AreFresh-others attempted b [] there f = tt
  AreFresh-others attempted b (c ∷ bs) there ((_, new), f) = (
    λ same. let x = subst (λ a. contains attempted a ≡ false) same new in cc,
    AreFresh-others (insert c attempted) b bs (ground (arith, contains-insert c b attempted)) f,
  )

  AreFresh-NoRepeat : (attempted bs : List String) → AreFresh route attempted bs → NoRepeat bs
  AreFresh-NoRepeat attempted [] f = tt
  AreFresh-NoRepeat attempted (b ∷ bs) (_, f) = (
    AreFresh-others (insert b attempted) b bs
        (ground (arith, contains-insert b b attempted, ==_refl b)) f,
    AreFresh-NoRepeat (insert b attempted) bs f,
  )

  AreFresh-In :
      (attempted bs : List String) → AreFresh route attempted bs → All (λ b. In b route.backends) bs
  AreFresh-In attempted [] f = tt
  AreFresh-In attempted (b ∷ bs) ((i, _), f) = (i, AreFresh-In (insert b attempted) bs f)

-- With at least one attempt allowed, the retry loop ends with a response whatever the backends,
-- the clock and the other tasks do; the request is sent to no backend twice, only to backends of
-- the route, and at most max_attempts times.
pub forward_with_retries-ends :
    {Url Uri Map Value Rest : Type 0} (urls : Urls Url Uri) (api : HeaderApi Map Value)
    (no_headers : Map) (route : RouteConfig) (asked : Asked)
    (request : Message (RequestLine Uri Rest) Map (List ℕ)) (client_addr : Option String)
    (client_body_timeout : Duration) (envs : ℕ → RoundEnv (Outgoing Uri Rest Map) (Incoming Map))
    (state : AppState)
    → 0 < state.config.retry.max_attempts
    → (out : Outcome Map) × (forward_with_retries urls api no_headers route asked request
          client_addr client_body_timeout envs state
        ≡ some out)
      × NoRepeat out.sent
      × All (λ b. In b route.backends) out.sent
      × (length out.sent ≤ state.config.retry.max_attempts)
unfolding forward_with_retries budget_of
forward_with_retries-ends urls api no_headers route asked request client_addr client_body_timeout
      envs state some_left =
    let (out, e, f, bound) =
      rounds-IsEnd urls api no_headers route asked request client_addr client_body_timeout
        (budget_of state) (suc state.config.retry.max_attempts) 1 [] envs state (omega arith)
        (omega arith) in
    (
      out,
      e,
      AreFresh-NoRepeat route [] out.sent f,
      AreFresh-In route [] out.sent f,
      omega (arith, bound),
    )

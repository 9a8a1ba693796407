-- ===== src/Http/Ends.antt =====
-- Why the retry loop of src/http/mod.rs ends.
use ferrum_proxy.Common.{
  ℕ, zero, suc, ◌+◌, ◌≤◌, ◌<◌, ◌≡◌, refl, sym, ap, ◌∙◌, inl, inr, String, Option, none, some, List,
  [], ◌∷◌, ◌++◌, length, ◌⊎◌, insert, string_eq, nat_eq, Option-cases, some_inj, subst, Duration,
  arith,
}
use ferrum_proxy.Config.{RouteConfig}
use ferrum_proxy.Upstream.Headers.{HeaderApi}
use ferrum_proxy.Upstream.Forward.{Message, Urls, RequestLine}
use ferrum_proxy.Http.State.{AppState}
use ferrum_proxy.Http.Respond.{Asked}
use ferrum_proxy.Http.Exchange.{Outgoing, Incoming}
use ferrum_proxy.Http.Retries.{
  sent_list, put_first, RoundEnv, Budget, budget_of, Round, finish, again, Outcome, round, rounds,
  forward_with_retries,
}
use ferrum_proxy.Http.Attempts.{IsFair, round-IsFair, forward_with_retries-ends}
use ferrum_proxy.Http.Reasons.{Reason, GoesOn, Explained, round-Explained}

≤-cases : (a j : ℕ) → a ≤ j → (a ≡ j) ⊎ (a + 1 ≤ j)
≤-cases a j h = ground arith

-- The set of the backends tried, when these join it in order.
abbrev pub insert_all : List String → List String → List String
insert_all [] attempted = attempted
insert_all (b ∷ bs) attempted = insert_all bs (insert b attempted)

module _ {Url Uri Map Value Rest : Type 0} (urls : Urls Url Uri) (api : HeaderApi Map Value)
    (no_headers : Map) (route : RouteConfig) (asked : Asked)
    (request : Message (RequestLine Uri Rest) Map (List ℕ)) (client_addr : Option String)
    (client_body_timeout : Duration) (budget : Budget) where
  abbrev IsWhy :
      ℕ → List String → (ℕ → RoundEnv (Outgoing Uri Rest Map) (Incoming Map)) → Outcome Map → Type 0
  IsWhy attempt attempted envs out =
      (earlier : List String) × (last : Option String) × (out.sent ≡ earlier ++ sent_list last)
      × (attempt + length earlier ≤ budget.max_attempts)
      × ((j : ℕ) → attempt ≤ j → j < attempt + length earlier → GoesOn budget j (envs j))
      × Reason route budget (attempt + length earlier) (insert_all earlier attempted)
          (envs (attempt + length earlier)) last out.state out.reply

  -- What the loop makes of a round.
  abbrev goes_on :
      (fuel attempt : ℕ)
      → List String
      → (ℕ → RoundEnv (Outgoing Uri Rest Map) (Incoming Map))
      → Round Map
      → Option (Outcome Map)
  goes_on fuel attempt attempted envs (finish sent (state, reply)) =
      some (record { sent = sent_list sent; state = state; reply = reply })
  goes_on fuel attempt attempted envs (again backend state) = put_first backend (
      rounds urls api no_headers route asked request client_addr client_body_timeout budget fuel
        (attempt + 1) (insert backend attempted) envs state)

  rounds-goes_on :
      (fuel attempt : ℕ) (attempted : List String)
      (envs : ℕ → RoundEnv (Outgoing Uri Rest Map) (Incoming Map)) (state : AppState)
      → rounds urls api no_headers route asked request client_addr client_body_timeout budget
          (suc fuel)
          attempt
          attempted
          envs
          state
        ≡ goes_on fuel attempt attempted envs (
            round urls api no_headers route asked request client_addr client_body_timeout budget
              attempt attempted
              (envs attempt)
              state)
  unfolding rounds
  rounds-goes_on fuel attempt attempted envs state =
      go
        (round urls api no_headers route asked request client_addr client_body_timeout budget
          attempt attempted (envs attempt) state)
        refl
    where
      go :
          (r : Round Map)
          → round urls api no_headers route asked request client_addr client_body_timeout budget
              attempt attempted
              (envs attempt)
              state
            ≡ r
          → rounds urls api no_headers route asked request client_addr client_body_timeout budget
              (suc fuel)
              attempt
              attempted
              envs
              state
            ≡ goes_on fuel attempt attempted envs r
      go (finish sent (s, reply)) e = ground (arith, e)
      go (again b s) e = ground (arith, e)

  goes_on-IsWhy :
      (fuel attempt : ℕ) (attempted : List String)
      (envs : ℕ → RoundEnv (Outgoing Uri Rest Map) (Incoming Map)) (out : Outcome Map)
      (r : Round Map)
      → attempt ≤ budget.max_attempts
      → IsFair route budget.max_attempts attempt attempted r
      → Explained route budget attempt attempted (envs attempt) r
      → ((b : String) (s : AppState) (later : Outcome Map)
          → attempt + 1 ≤ budget.max_attempts
          → rounds urls api no_headers route asked request client_addr client_body_timeout budget
              fuel
              (attempt + 1)
              (insert b attempted)
              envs
              s
            ≡ some later
          → IsWhy (attempt + 1) (insert b attempted) envs later)
      → goes_on fuel attempt attempted envs r ≡ some out
      → IsWhy attempt attempted envs out
  goes_on-IsWhy fuel attempt attempted envs out (finish sent (s, reply)) low fair why later h =
      let e : attempt + 0 ≡ attempt = omega arith in
      (
        [],
        sent,
        ap (λ o. o.sent) (sym (some_inj h)),
        omega arith,
        λ j from to. absurd (omega arith),
        rw e (
            subst (λ o. Reason route budget attempt attempted (envs attempt) sent o.state o.reply)
              (some_inj h) why),
      )
  goes_on-IsWhy fuel attempt attempted envs out (again b s) low (_, more) why later h =
      elim (Option-cases (
        rounds urls api no_headers route asked request client_addr client_body_timeout budget fuel
          (attempt + 1) (insert b attempted) envs s)) [
            | inl e ↦ absurd (cc (sym (ap (put_first b) e) ∙ h))
            | inr (o, e) ↦
                let (earlier, last, sent, to, on, reason) = later b s o (omega arith) e in
                let k : attempt + length (b ∷ earlier) ≡ attempt + 1 + length earlier =
                  omega arith in
                subst (IsWhy attempt attempted envs) (some_inj (sym (ap (put_first b) e) ∙ h)) (
                  b ∷ earlier,
                  last,
                  ap (◌∷◌ b) sent,
                  omega (arith, to),
                  λ j from below. elim (≤-cases attempt j from) [
                    | inl same ↦ subst (λ i. GoesOn budget i (envs i)) same why
                    | inr later_on ↦ on j (omega arith) (omega arith)
                  ],
                  rw k reason,
                )
          ]

  no_fuel :
      (attempt : ℕ) (attempted : List String)
      (envs : ℕ → RoundEnv (Outgoing Uri Rest Map) (Incoming Map)) (state : AppState)
      → rounds urls api no_headers route asked request client_addr client_body_timeout budget zero
          attempt attempted envs state
        ≡ none
  unfolding rounds
  no_fuel attempt attempted envs state = refl

  rounds-IsWhy :
      (fuel attempt : ℕ) (attempted : List String)
      (envs : ℕ → RoundEnv (Outgoing Uri Rest Map) (Incoming Map)) (state : AppState)
      (out : Outcome Map)
      → attempt ≤ budget.max_attempts
      → rounds urls api no_headers route asked request client_addr client_body_timeout budget fuel
          attempt attempted envs state
        ≡ some out
      → IsWhy attempt attempted envs out
  rounds-IsWhy zero attempt attempted envs state out low h =
      absurd (cc (sym (no_fuel attempt attempted envs state) ∙ h))
  rounds-IsWhy (suc fuel) attempt attempted envs state out low h =
      goes_on-IsWhy fuel attempt attempted envs out
        (round urls api no_headers route asked request client_addr client_body_timeout budget
          attempt attempted (envs attempt) state)
        low
        (round-IsFair urls api no_headers route asked request client_addr client_body_timeout budget
          attempt attempted (envs attempt) state)
        (round-Explained urls api no_headers route asked request client_addr client_body_timeout
          budget attempt attempted (envs attempt) state)
        (λ b s o. rounds-IsWhy fuel (attempt + 1) (insert b attempted) envs s o)
        (sym (rounds-goes_on fuel attempt attempted envs state) ∙ h)

-- With at least one attempt allowed, the retry loop sends the request once in each round but
-- perhaps the last; every round before the last began and was answered within the total time,
-- and its backoff, if there is one, fitted into the rest; the last round ends the loop for a
-- reason. If it sent the request: the status of the response is not one to retry, or it is the
-- last attempt allowed, or the total time is over when the response is there, or the backoff
-- does not fit. If it did not: the total time was over before it and the response is 504, or the
-- balancer found no backend beside those tried before and the response is 503 with the text of
-- that case.
pub forward_with_retries-why :
    {Url Uri Map Value Rest : Type 0} (urls : Urls Url Uri) (api : HeaderApi Map Value)
    (no_headers : Map) (route : RouteConfig) (asked : Asked)
    (request : Message (RequestLine Uri Rest) Map (List ℕ)) (client_addr : Option String)
    (client_body_timeout : Duration) (envs : ℕ → RoundEnv (Outgoing Uri Rest Map) (Incoming Map))
    (state : AppState)
    → 0 < state.config.retry.max_attempts
    → (out : Outcome Map) × (forward_with_retries urls api no_headers route asked request
          client_addr client_body_timeout envs state
        ≡ some out)
      × (earlier : List String) × (last : Option String) × (out.sent ≡ earlier ++ sent_list last)
      × (1 + length earlier ≤ state.config.retry.max_attempts)
      × ((j : ℕ) → 1 ≤ j → j < 1 + length earlier → GoesOn (budget_of state) j (envs j))
      × Reason route
          (budget_of state)
          (1 + length earlier)
          (insert_all earlier [])
          (envs (1 + length earlier))
          last
          out.state
          out.reply
unfolding forward_with_retries budget_of
forward_with_retries-why urls api no_headers route asked request client_addr client_body_timeout
      envs state some_left =
    let (out, e, _, _, _) =
      forward_with_retries-ends urls api no_headers route asked request client_addr
        client_body_timeout envs state some_left in
    let (earlier, last, sent, to, on, reason) =
      rounds-IsWhy urls api no_headers route asked request client_addr client_body_timeout
        (budget_of state) (suc state.config.retry.max_attempts) 1 [] envs state out (omega arith)
        e in
    (out, e, earlier, last, sent, to, on, reason)

-- ===== src/Bench/Replies.antt =====
-- Runs of requests to the service of src/bin/benchmark_backend.rs.
use ferrum_proxy.Common.{
  ℕ, zero, suc, ◌+◌, ◌-◌, ◌/◌, ◌%◌, ◌<◌, ◌≡◌, ◌≢◌, refl, String, Option, List, [], ◌∷◌, All, ◌==◌,
  nat_eq, string_eq, ==_of_ne, ==_refl, if◌then◌else◌, leb, length, length-append, length-take,
  u64_mod, Bool-cases, inl, inr, arith,
}
use ferrum_proxy.Http.State.{Method}
use ferrum_proxy.Bench.BackendArgs.{BackendConfig}
use ferrum_proxy.Bench.Backend.{
  BackendState, BackendReply, backend_response, repeat, fit_to, build_response_body, status_of,
  answer_request,
}

length-repeat : (n byte : ℕ) → length (repeat n byte) ≡ n
length-repeat zero byte = refl
length-repeat (suc n) byte = omega (arith, length-repeat n byte)

length-fit_to : (n : ℕ) (body : List ℕ) → length (fit_to n body) ≡ n
unfolding fit_to
length-fit_to n body = elim (Bool-cases (leb n (length body))) [
  | inl long ↦ rw long (length-take n body (ground arith))
  | inr short ↦
      let a = length-append body (repeat (n - length body) b'x') in
      let b = length-repeat (n - length body) b'x' in rw short (ground arith)
]

-- A request to any path but that of the health check.
pub record BenchRequest : Type 0 where
  pub method : Method
  pub path : String
  pub received : Option (List ℕ)
  pub counted : path ≢ "/health"

-- The replies to requests in a row.
unfoldable pub answer_all : List BenchRequest → BackendState → List BackendReply
answer_all [] state = []
answer_all (r ∷ rest) state =
    (answer_request r.method r.path r.received state).1
    ∷ answer_all rest (answer_request r.method r.path r.received state).0

-- How many replies have the status.
abbrev pub with_status : ℕ → List BackendReply → ℕ
with_status status [] = 0
with_status status (r ∷ rest) =
    let n = with_status status rest in if r.status == status then suc n else n

one_more : (c k : ℕ) → 0 < k → (c + 1) % k ≡ 0 → (c + 1) / k ≡ c / k + 1
one_more c k p h = grind arith

no_more : (c k : ℕ) → 0 < k → (c + 1) % k ≢ 0 → (c + 1) / k ≡ c / k
no_more c k p h = grind arith

-- The reply to a counted request.
answer_request-counted :
    (r : BenchRequest) (s : BackendState)
    → s.request_count + 1 < u64_mod
    → ((answer_request r.method r.path r.received s).0
        ≡ record s { request_count = s.request_count + 1 })
      × ((answer_request r.method r.path r.received s).1.status
          ≡ status_of s.config (s.request_count + 1))
      × (length (answer_request r.method r.path r.received s).1.body ≡ s.config.response_body_bytes)
unfolding answer_request backend_response build_response_body
answer_request-counted r s h =
    let other = ==_of_ne r.path "/health" r.counted in
    let next : (s.request_count + 1) % u64_mod ≡ s.request_count + 1 = omega arith in
    rw (other, next) (refl, refl, length-fit_to s.config.response_body_bytes _)

status_of-turn :
    (c : BackendConfig) (n : ℕ)
    → c.status ≢ c.failure_status
    → 0 < c.fail_every
    → (status_of c n == c.failure_status) ≡ (n % c.fail_every == 0)
unfolding status_of
status_of-turn c n ne p =
    let own = ==_of_ne c.status c.failure_status ne in
    let same = ==_refl c.failure_status in
    elim (Bool-cases (n % c.fail_every == 0)) [ inl turn ↦ ground arith | inr other ↦ ground arith ]

answer_all-turns :
    (reqs : List BenchRequest) (s : BackendState)
    → s.config.status ≢ s.config.failure_status
    → 0 < s.config.fail_every
    → s.request_count + length reqs < u64_mod
    → with_status s.config.failure_status (answer_all reqs s)
        + s.request_count / s.config.fail_every
      ≡ (s.request_count + length reqs) / s.config.fail_every
unfolding answer_all
answer_all-turns [] s ne p h =
    let e : s.request_count + 0 ≡ s.request_count = omega arith in rw e (omega arith)
answer_all-turns (r ∷ rest) s ne p h =
    let c = s.request_count in
    let k = s.config.fail_every in
    let (next, status, _) = answer_request-counted r s (omega arith) in
    let s' : BackendState = record s { request_count = c + 1 } in
    let ih = answer_all-turns rest s' ne p (omega arith) in
    let turn = status_of-turn s.config (c + 1) ne p in
    let e : c + suc (length rest) ≡ c + 1 + length rest = omega arith in
    rw (next, status, turn, e)
      (elim (Bool-cases ((c + 1) % k == 0)) [
        | inl hit ↦ let q = one_more c k p (ground arith) in rw hit (omega (arith, ih, q))
        | inr miss ↦ let q = no_more c k p (ground arith) in rw miss (omega (arith, ih, q))
      ])

answer_all-lengths :
    (reqs : List BenchRequest) (s : BackendState)
    → s.request_count + length reqs < u64_mod
    → All (λ r. length r.body ≡ s.config.response_body_bytes) (answer_all reqs s)
unfolding answer_all
answer_all-lengths [] s h = tt
answer_all-lengths (r ∷ rest) s h =
    let (next, _, size) = answer_request-counted r s (omega arith) in
    let s' : BackendState = record s { request_count = s.request_count + 1 } in
    (size, rw next (answer_all-lengths rest s' (omega arith)))

-- A fresh benchmark backend whose failure status differs from its status and whose fail_every is
-- positive answers, of fewer than 2^64 requests to paths other than /health, one of every
-- fail_every with the failure status, rounded down, and gives each of these replies a body of
-- the size that is asked for.
pub answer_all-fails :
    (reqs : List BenchRequest) (s : BackendState)
    → s.request_count ≡ 0
    → s.config.status ≢ s.config.failure_status
    → 0 < s.config.fail_every
    → length reqs < u64_mod
    → (with_status s.config.failure_status (answer_all reqs s) ≡ length reqs / s.config.fail_every)
      × All (λ r. length r.body ≡ s.config.response_body_bytes) (answer_all reqs s)
answer_all-fails reqs s fresh ne p h =
    let turns = answer_all-turns reqs s ne p (omega arith) in
    (grind arith, answer_all-lengths reqs s (omega arith))

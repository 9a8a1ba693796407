-- ===== src/Balancing.antt =====
-- src/balancing/mod.rs: the choice of a backend. A balancer is returned with its new state; the
-- counters are `AtomicU64`, so each call of `fetch_add` is one step. `as usize` is read at 64 bits.
pub mod Selection
pub mod Rotation
pub mod Examples
use ferrum_proxy.Common.{
  ℕ, suc, zero, String, ◌+◌, ◌%◌, ◌^◌, Option, none, some, List, [], ◌∷◌, string_eq, lookup, put,
  length, get_elem?, u64_mod,
}
use ferrum_proxy.Config.{BalancingStrategy, round_robin, first_healthy, RouteConfig}

pub record RouteBalancer : Type 0 where
  pub strategy : BalancingStrategy
  pub counter : ℕ

pub record LoadBalancer : Type 0 where
  pub routes : List (String × RouteBalancer)

abbrev first : List String → Option String
first [] = none
first (b ∷ _) = some b

-- `LoadBalancer::new`; of two routes with one prefix the later one is kept.
abbrev pub fresh_balancer : RouteConfig → RouteBalancer
fresh_balancer route = record { strategy = route.balancing; counter = 0 }

pub collect : List RouteConfig → List (String × RouteBalancer) → List (String × RouteBalancer)
collect [] m = m
collect (route ∷ routes) m = collect routes (put route.path_prefix (fresh_balancer route) m)

unfoldable pub new : List RouteConfig → LoadBalancer
unfolding collect
new routes = record { routes = collect routes [] }

-- `RouteBalancer::select`
unfoldable pub select : RouteBalancer → List String → RouteBalancer × Option String
select b backends = elim b.strategy [
  | round_robin ↦ (
    record b { counter = (b.counter + 1) % u64_mod },
    get_elem? backends (b.counter % length backends),
  )
  | first_healthy ↦ (b, first backends)
]

-- The balancer of the route, if there is one, makes the choice and keeps its new counter.
select_known :
    LoadBalancer → RouteConfig → List String → Option RouteBalancer → LoadBalancer × Option String
unfolding select
select_known lb route backends none = (lb, first backends)
select_known lb route backends (some b) =
    let (b', choice) = select b backends in
    (record { routes = put route.path_prefix b' lb.routes }, choice)

-- `LoadBalancer::select_backend`
unfoldable pub select_backend :
    LoadBalancer → RouteConfig → List String → LoadBalancer × Option String
unfolding select_known
select_backend lb route [] = (lb, none)
select_backend lb route (b ∷ bs) =
    select_known lb route (b ∷ bs) (lookup route.path_prefix lb.routes)

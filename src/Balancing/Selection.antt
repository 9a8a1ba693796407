-- ===== src/Balancing/Selection.antt =====
-- What one call of src/balancing/mod.rs returns and changes.
use ferrum_proxy.Common.{
  String, ◌%◌, ◌<◌, ◌≡◌, refl, ◌≢◌, ◌⊎◌, inl, inr, Option, none, some, List, [], ◌∷◌, string_eq,
  lookup, lookup-put, length, get_elem?-lt, In, arith, ==_of_ne,
}
use ferrum_proxy.Config.{BalancingStrategy, round_robin, first_healthy, RouteConfig}
use ferrum_proxy.Balancing.{RouteBalancer, LoadBalancer, select, select_known, select_backend}

-- A choice among `backends`.
abbrev pub Chooses : List String → Option String → Type 0
Chooses backends choice = (b : String) × (choice ≡ some b) × In b backends

select-Chooses :
    (r : RouteBalancer) (backends : List String)
    → 0 < length backends
    → Chooses backends (select r backends).1
unfolding select
select-Chooses r (b ∷ bs) h = go r.strategy
  where
    go : (s : BalancingStrategy) → Chooses (b ∷ bs) (select (record r { strategy = s }) (b ∷ bs)).1
    go round_robin = get_elem?-lt (b ∷ bs) (r.counter % length (b ∷ bs)) (omega arith)
    go first_healthy = (b, refl, inl refl)
select-Chooses r [] h = absurd (omega arith)

select_known-Chooses :
    (lb : LoadBalancer) (route : RouteConfig) (backends : List String) (o : Option RouteBalancer)
    → 0 < length backends
    → Chooses backends (select_known lb route backends o).1
unfolding select_known
select_known-Chooses lb route (b ∷ bs) none h = (b, refl, inl refl)
select_known-Chooses lb route [] none h = absurd (omega arith)
select_known-Chooses lb route backends (some r) h = select-Chooses r backends h

-- From an empty list nothing is chosen and no counter moves; from any other list a member of it
-- is chosen, whatever the strategy, the counter and the route.
pub select_backend_lem :
    (lb : LoadBalancer) (route : RouteConfig) (backends : List String)
    → ((backends ≡ []) × (select_backend lb route backends ≡ (lb, none)))
      ⊎ ((backends ≢ []) × Chooses backends (select_backend lb route backends).1)
unfolding select_backend
select_backend_lem lb route [] = inl (refl, refl)
select_backend_lem lb route (b ∷ bs) = inr (
  λ e. cc,
  select_known-Chooses lb route (b ∷ bs) (lookup route.path_prefix lb.routes) (omega arith),
)

-- A choice for one route leaves the entry of each other prefix as it was.
pub select_backend_frame :
    (lb : LoadBalancer) (route : RouteConfig) (backends : List String) (prefix : String)
    → route.path_prefix ≢ prefix
    → lookup prefix (select_backend lb route backends).0.routes ≡ lookup prefix lb.routes
unfolding select_backend select_known
select_backend_frame lb route [] prefix h = refl
select_backend_frame lb route (b ∷ bs) prefix h = go (lookup route.path_prefix lb.routes)
  where
    go :
        (o : Option RouteBalancer)
        → lookup prefix (select_known lb route (b ∷ bs) o).0.routes ≡ lookup prefix lb.routes
    go none = refl
    go (some r) =
        rw (lookup-put route.path_prefix prefix (select r (b ∷ bs)).0 lb.routes)
          (rw (==_of_ne route.path_prefix prefix h))

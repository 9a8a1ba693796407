-- ===== src/Routing/Examples.antt =====
-- Paths for src/routing/mod.rs to route, between two pools.
use ferrum_proxy.Common.{◌≡◌, ◌↔◌, true, none, some, [], ◌∷◌, In, arith}
use ferrum_proxy.Config.{RouteConfig}
use ferrum_proxy.Config.Validate.Routes.{Distinct}
use ferrum_proxy.Config.Examples.{route_of, two_routes}
use ferrum_proxy.Routing.{matches, match_route}
use ferrum_proxy.Routing.Matching.{Takes, matches_iff}
use ferrum_proxy.Routing.Longest.{
  IsLongest, match_route_iff, match_route_order, match_route-eq-none_iff,
}

abbrev api : RouteConfig
api = route_of "/api" ("http://b" ∷ "http://a" ∷ [])

abbrev root : RouteConfig
root = route_of "/" ("http://a" ∷ [])

apart : Distinct two_routes
apart = ((λ e. cc, tt), (tt, tt))

apart' : Distinct (api ∷ root ∷ [])
apart' = ((λ e. cc, tt), (tt, tt))

matches_iff_example : (matches "/apis" api ≡ true) ↔ Takes "/api" "/apis"
matches_iff_example = matches_iff "/apis" api

match_route_iff_example :
    (match_route "/api/users" two_routes ≡ some api) ↔ IsLongest "/api/users" two_routes api
match_route_iff_example = match_route_iff "/api/users" two_routes api apart

match_route_order_example :
    match_route "/api/users" two_routes ≡ match_route "/api/users" (api ∷ root ∷ [])
match_route_order_example =
    match_route_order "/api/users" two_routes (api ∷ root ∷ []) apart apart' same
  where
    same : (r : RouteConfig) → In r two_routes ↔ In r (api ∷ root ∷ [])
    same r = ground arith

match_route-eq-none_iff_example :
    (match_route "/other" two_routes ≡ none)
    ↔ ((r : RouteConfig) → In r two_routes → ¬ Takes r.path_prefix "/other")
match_route-eq-none_iff_example = match_route-eq-none_iff "/other" two_routes

-- ===== src/Balancing/Examples.antt =====
-- Calls of src/balancing/mod.rs on a pool of two backends.
use ferrum_proxy.Common.{
  string_eq, ◌%◌, ◌≡◌, refl, ◌≢◌, ◌⊎◌, String, none, some, List, [], ◌∷◌, map, lookup, arith,
}
use ferrum_proxy.Config.{round_robin}
use ferrum_proxy.Config.Examples.{route_of, two_routes}
use ferrum_proxy.Balancing.{RouteBalancer, new, select_backend}
use ferrum_proxy.Balancing.Selection.{Chooses, select_backend_lem, select_backend_frame}
use ferrum_proxy.Balancing.Rotation.{selections, rotate, selections-rotate}

abbrev turned : RouteBalancer
turned = record { strategy = round_robin; counter = 3 }

selections-rotate_example :
    selections 2 turned ("b" ∷ "a" ∷ []) ≡ map some (rotate (3 % 2) ("b" ∷ "a" ∷ []))
selections-rotate_example =
    selections-rotate turned ("b" ∷ "a" ∷ []) refl (omega arith) (omega arith)

abbrev one : List String
one = "a" ∷ []

select_backend_lem_example :
    ((one ≡ []) × (select_backend (new two_routes) (route_of "/" one) one ≡ (new two_routes, none)))
    ⊎ ((one ≢ []) × Chooses one (select_backend (new two_routes) (route_of "/" one) one).1)
select_backend_lem_example = select_backend_lem (new two_routes) (route_of "/" one) one

select_backend_frame_example :
    lookup "/api" (select_backend (new two_routes) (route_of "/" ("a" ∷ [])) ("a" ∷ [])).0.routes
    ≡ lookup "/api" (new two_routes).routes
select_backend_frame_example =
    select_backend_frame (new two_routes) (route_of "/" ("a" ∷ [])) ("a" ∷ []) "/api" λ e. cc

-- ===== src/Config/Validate/Minimal.antt =====
-- The defaults of src/config/mod.rs under its validation.
use ferrum_proxy.Common.{
  ℕ, ◌<◌, String, true, false, ◌≡◌, refl, ◌≢◌, ◌↔◌, List, [], ◌∷◌, All, map, ok, arith, starts_with,
}
use ferrum_proxy.Config.Types.{RouteConfig}
use ferrum_proxy.Config.Documents.{minimal, config_of, route_of, minimal_route}
use ferrum_proxy.Config.Validate.{UrlApi, is_blank, validate}
use ferrum_proxy.Config.Validate.Routes.{BackendIsValid, RouteIsValid, Distinct}
use ferrum_proxy.Config.Validate.Endpoints.{Agrees, AllAgree}
use ferrum_proxy.Config.Validate.Whole.{validate_iff}

module _ {Url : Type 0} (urls : UrlApi Url) where
  -- What is asked of the keys that a document must have.
  pub record RouteIsUsable (route : String × List String) : Type 0 where
    pub prefix : starts_with route.0 "/" ≡ true
    pub nonempty : route.1 ≢ []
    pub backends : All (BackendIsValid urls) route.1

  abbrev pub DistinctPrefixes : List (String × List String) → Type 0
  DistinctPrefixes [] = Unit
  DistinctPrefixes (r ∷ rest) = All (λ q. q.0 ≢ r.0) rest × DistinctPrefixes rest

  pub record IsUsable (port : ℕ) (host : String) (interval : ℕ) (endpoint : String)
      (routes : List (String × List String)) : Type 0 where
    pub port_positive : 0 < port
    pub host_given : is_blank host ≡ false
    pub interval_positive : 0 < interval
    pub endpoint_path : starts_with endpoint "/" ≡ true
    pub some_route : routes ≢ []
    pub usable : All RouteIsUsable routes
    pub distinct : DistinctPrefixes routes

  abbrev routes_of : List (String × List String) → List RouteConfig
  routes_of routes = map route_of (map minimal_route routes)

  route_iff :
      (r : String × List String) → RouteIsValid urls (route_of (minimal_route r)) ↔ RouteIsUsable r
  route_iff (p, bs) = (
    λ v. record { prefix = v.prefix; nonempty = v.nonempty; backends = v.backends },
    λ v. record {
      prefix = v.prefix;
      nonempty = v.nonempty;
      retry = tt;
      passive = tt;
      endpoint = tt;
      connect = tt;
      read = tt;
      client_body = tt;
      backends = v.backends;
    },
  )

  routes_iff :
      (rs : List (String × List String))
      → All (RouteIsValid urls) (routes_of rs) ↔ All RouteIsUsable rs
  routes_iff [] = (λ _. tt, λ _. tt)
  routes_iff (r ∷ rs) =
      let (to, from) = routes_iff rs in
      let (there, back) = route_iff r in (λ (v, vs). (there v, to vs), λ (v, vs). (back v, from vs))

  others_iff :
      (p : String) (rs : List (String × List String))
      → All (λ q. q.path_prefix ≢ p) (routes_of rs) ↔ All (λ q. q.0 ≢ p) rs
  others_iff p [] = (λ _. tt, λ _. tt)
  others_iff p (r ∷ rs) =
      let (to, from) = others_iff p rs in (λ (v, vs). (v, to vs), λ (v, vs). (v, from vs))

  prefixes_iff : (rs : List (String × List String)) → Distinct (routes_of rs) ↔ DistinctPrefixes rs
  prefixes_iff [] = (λ _. tt, λ _. tt)
  prefixes_iff (r ∷ rs) =
      let (to, from) = prefixes_iff rs in
      let (there, back) = others_iff r.0 rs in
      (λ (v, vs). (there v, to vs), λ (v, vs). (back v, from vs))

  -- Without endpoints of their own, routes agree.
  agree_all :
      (global p : String) (bs : List String) (rs : List (String × List String))
      → All (Agrees global (route_of (minimal_route (p, bs)))) (routes_of rs)
  agree_all global p bs [] = tt
  agree_all global p bs (r ∷ rs) = (λ b i j. refl, agree_all global p bs rs)

  all_agree : (global : String) (rs : List (String × List String)) → AllAgree global (routes_of rs)
  all_agree global [] = tt
  all_agree global ((p, bs) ∷ rs) = (agree_all global p bs rs, all_agree global rs)

  some_route_iff : (rs : List (String × List String)) → (routes_of rs ≢ []) ↔ (rs ≢ [])
  some_route_iff [] = (λ h e. h refl, λ h e. h refl)
  some_route_iff (r ∷ rs) = (λ h e. cc e, λ h e. cc e)

  -- A document with the required keys alone, filled up with the defaults, is accepted exactly
  -- when its port and its interval are positive, its host is not blank, its health endpoint
  -- starts with a slash, it has a route, and its routes have distinct prefixes that start with a
  -- slash and each at least one backend, all of them valid.
  pub validate-minimal_iff :
      (port : ℕ) (host : String) (interval : ℕ) (endpoint : String)
      (routes : List (String × List String))
      → (validate urls (config_of (minimal port host interval endpoint routes)) ≡ ok tt)
        ↔ IsUsable port host interval endpoint routes
  unfolding config_of
  validate-minimal_iff port host interval endpoint routes =
      let valid = validate_iff urls (config_of (minimal port host interval endpoint routes)) in
      (
        λ h.
            let v = valid.0 h in
            record {
              port_positive = v.server.port;
              host_given = v.server.host;
              interval_positive = v.health_check.interval;
              endpoint_path = v.health_check.endpoint;
              some_route = (some_route_iff routes).0 v.nonempty;
              usable = (routes_iff routes).0 v.routes;
              distinct = (prefixes_iff routes).0 v.distinct;
            },
        λ u. valid.1 (record {
          server = record {
            port = u.port_positive;
            host = u.host_given;
            graceful_shutdown = omega arith;
            client_header = omega arith;
            client_body = omega arith;
          };
          nonempty = (some_route_iff routes).1 u.some_route;
          routes = (routes_iff routes).1 u.usable;
          distinct = (prefixes_iff routes).1 u.distinct;
          health_check = record {
            interval = u.interval_positive;
            endpoint = u.endpoint_path;
            check_timeout = omega arith;
            failure = omega arith;
            recovery = omega arith;
            ejection = omega arith;
            active_positive = omega arith;
            active_range = omega arith;
            passive_positive = omega arith;
            passive_range = omega arith;
          };
          upstream = record {
            connect_timeout = omega arith;
            read_timeout = omega arith;
            request_body = omega arith;
            response_body = omega arith;
            buffered = omega arith;
          };
          retry = record {
            attempts = omega arith;
            total_timeout = omega arith;
            statuses = (omega arith, (omega arith, (omega arith, tt)));
          };
          debug = λ t h. absurd (cc h);
          endpoints = all_agree endpoint routes;
        }),
      )

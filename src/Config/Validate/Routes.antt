-- ===== src/Config/Validate/Routes.antt =====
-- What the validator of src/config/mod.rs accepts as routes.
use text.Mathlib.TextEquality.{eq_iff}
use ferrum_proxy.Common.{
  Result-cases, String, ◌≡◌, refl, ◌≢◌, ◌↔◌, inl, inr, true, false, none, List, [], ◌∷◌, All,
  contains, insert, contains-In, In-contains, starts_with, string_eq, ok, arith, Option-cases,
  ◌>>=◌, ◌>>◌, ◌⧺◌,
}
use ferrum_proxy.Config.Types.{RouteConfig}
use ferrum_proxy.Config.Validate.{
  UrlApi, Checked, refuse, validate_backend, validate_backends, validate_route, validate_routes,
  retry_message, passive_message, endpoint_message, connect_message, read_message,
  client_body_message,
}
use ferrum_proxy.Config.Validate.Parts.{
  AreStatuses, validate_statuses_iff, IsTimeout, validate_timeout_iff, IsEndpoint,
  validate_endpoint_iff,
}

-- A step that succeeds, then the rest.
pub then-eq-ok_iff : (m k : Checked) → ((m >>= λ _. k) ≡ ok tt) ↔ ((m ≡ ok tt) × (k ≡ ok tt))
then-eq-ok_iff m k = ground arith

module _ {Url : Type 0} (urls : UrlApi Url) where
  -- The backend parses as an `http` URL with a host.
  pub record BackendIsValid (backend : String) : Type 0 where
    pub url : Url
    pub parsed : urls.parse backend ≡ ok url
    pub scheme : urls.scheme url ≡ "http"
    pub host : urls.host_str url ≢ none

  validate_backend_sound :
      (prefix backend : String)
      → validate_backend urls prefix backend ≡ ok tt
      → BackendIsValid backend
  unfolding validate_backend
  validate_backend_sound prefix backend h = elim (Result-cases (urls.parse backend)) [
    | inl (url, e) ↦ record {
      url = url;
      parsed = e;
      scheme = ground (arith, eq_iff (urls.scheme url) "http");
      host = ground arith;
    }
    | inr (e', e) ↦ ground arith
  ]

  pub validate_backend_iff :
      (prefix backend : String)
      → (validate_backend urls prefix backend ≡ ok tt) ↔ BackendIsValid backend
  unfolding validate_backend
  validate_backend_iff prefix backend = (
    validate_backend_sound prefix backend,
    λ v. ground (
      arith,
      v.parsed,
      v.host,
      eq_iff (urls.scheme v.url) "http",
      v.scheme,
      Option-cases (urls.host_str v.url),
    ),
  )

  pub validate_backends_iff :
      (prefix : String) (l : List String)
      → (validate_backends urls prefix l ≡ ok tt) ↔ All BackendIsValid l
  unfolding validate_backends
  validate_backends_iff prefix [] = ground arith
  validate_backends_iff prefix (backend ∷ rest) =
      let here = validate_backend_iff prefix backend in
      let later = validate_backends_iff prefix rest in
      (
        λ h. let (a, b) = (then-eq-ok_iff _ _).0 h in (here.0 a, later.0 b),
        λ (a, b). (then-eq-ok_iff _ _).1 (here.1 a, later.1 b),
      )

  pub record RouteIsValid (r : RouteConfig) : Type 0 where
    pub prefix : starts_with r.path_prefix "/" ≡ true
    pub nonempty : r.backends ≢ []
    pub retry : AreStatuses r.retry_on_statuses
    pub passive : AreStatuses r.passive_failure_statuses
    pub endpoint : IsEndpoint r.health_check_endpoint
    pub connect : IsTimeout r.connect_timeout_ms
    pub read : IsTimeout r.read_timeout_ms
    pub client_body : IsTimeout r.client_body_timeout_ms
    pub backends : All BackendIsValid r.backends

  -- A route is accepted exactly when its prefix, its statuses, its endpoint, its timeouts and
  -- each of its backends are valid and it has a backend.
  pub validate_route_iff : (r : RouteConfig) → (validate_route urls r ≡ ok tt) ↔ RouteIsValid r
  unfolding validate_route
  validate_route_iff r =
      let c = validate_statuses_iff (retry_message r.path_prefix) r.retry_on_statuses in
      let d = validate_statuses_iff (passive_message r.path_prefix) r.passive_failure_statuses in
      let e = validate_endpoint_iff (endpoint_message r.path_prefix) r.health_check_endpoint in
      let f = validate_timeout_iff (connect_message r.path_prefix) r.connect_timeout_ms in
      let g = validate_timeout_iff (read_message r.path_prefix) r.read_timeout_ms in
      let i = validate_timeout_iff (client_body_message r.path_prefix) r.client_body_timeout_ms in
      let j = validate_backends_iff r.path_prefix r.backends in
      (
        λ h. ground arith,
        λ v.
            ground
              (arith, v.retry, v.passive, v.endpoint, v.connect, v.read, v.client_body, v.backends),
      )

-- No two routes have one prefix.
abbrev pub Distinct : List RouteConfig → Type 0
Distinct [] = Unit
Distinct (r ∷ rest) = All (λ q. q.path_prefix ≢ r.path_prefix) rest × Distinct rest

abbrev IsFresh : List String → List RouteConfig → Type 0
IsFresh seen = All (λ r. contains seen r.path_prefix ≡ false)

IsFresh-insert_iff :
    (prefix : String) (seen : List String) (rest : List RouteConfig)
    → IsFresh (insert prefix seen) rest
      ↔ (IsFresh seen rest × All (λ q. q.path_prefix ≢ prefix) rest)
IsFresh-insert_iff prefix seen [] = ground arith
IsFresh-insert_iff prefix seen (q ∷ rest) = ground (
  arith,
  IsFresh-insert_iff prefix seen rest,
  eq_iff prefix q.path_prefix,
  contains-In prefix seen,
  In-contains prefix seen,
)

module _ {Url : Type 0} (urls : UrlApi Url) where
  validate_routes_from_iff :
      (seen : List String) (routes : List RouteConfig)
      → (validate_routes urls seen routes ≡ ok tt)
        ↔ (All (RouteIsValid urls) routes × IsFresh seen routes × Distinct routes)
  unfolding validate_routes
  validate_routes_from_iff seen [] = ground arith
  validate_routes_from_iff seen (r ∷ rest) =
      let here = validate_route_iff urls r in
      let fresh = IsFresh-insert_iff r.path_prefix seen rest in
      let later = validate_routes_from_iff (insert r.path_prefix seen) rest in
      let all_iff = then-eq-ok_iff (validate_route urls r) (do
        refuse (contains seen r.path_prefix) ("duplicate route prefix '" ⧺ r.path_prefix ⧺ "'")
        validate_routes urls (insert r.path_prefix seen) rest) in
      (
        λ h.
            let (a, b) = all_iff.0 h in
            let (x, y, z) = later.0 (ground (arith, b)) in
            ((here.0 a, x), (ground (arith, b), (fresh.0 y).0), ((fresh.0 y).1, z)),
        λ ((a, x), (u, y), (w, z)).
            all_iff.1 (here.1 a, ground (arith, u, later.1 (x, fresh.1 (y, w), z))),
      )

  -- The loop over the routes accepts exactly the lists whose routes are each valid and whose
  -- prefixes are distinct.
  pub validate_routes_iff :
      (routes : List RouteConfig)
      → (validate_routes urls [] routes ≡ ok tt)
        ↔ (All (RouteIsValid urls) routes × Distinct routes)
  validate_routes_iff routes =
      let all = validate_routes_from_iff [] routes in
      (λ h. let (a, f, d) = all.0 h in (a, d), λ (a, d). all.1 (a, fresh routes, d))
    where
      fresh : (l : List RouteConfig) → IsFresh [] l
      fresh [] = tt
      fresh (q ∷ l) = (refl, fresh l)

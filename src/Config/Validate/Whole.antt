-- ===== src/Config/Validate/Whole.antt =====
-- What `Config::validate` accepts, and what `load_from_file` returns.
use ferrum_proxy.Common.{
  String, ◌≡◌, refl, ◌≢◌, ◌↔◌, inl, inr, [], All, Result, ok, err, arith, Result-cases, is_empty,
  ◌>>◌,
}
use ferrum_proxy.Config.Types.{Config}
use ferrum_proxy.Config.Validate.{
  UrlApi, Checked, refuse, validate, validate_server, validate_routes, validate_health_check,
  validate_upstream, validate_retry, validate_debug, validate_route_health_endpoint_overrides,
  load_from_file,
}
use ferrum_proxy.Config.Validate.Parts.{
  ServerIsValid, validate_server_iff, HealthCheckIsValid, validate_health_check_iff,
  UpstreamIsValid, validate_upstream_iff, RetryIsValid, validate_retry_iff, DebugIsValid,
  validate_debug_iff,
}
use ferrum_proxy.Config.Validate.Routes.{RouteIsValid, Distinct, validate_routes_iff}
use ferrum_proxy.Config.Validate.Endpoints.{AllAgree, validate_overrides_iff}

module _ {Url : Type 0} (urls : UrlApi Url) where
  -- The specification of a configuration, field by field.
  pub record ConfigIsValid (c : Config) : Type 0 where
    pub server : ServerIsValid c.server
    pub nonempty : c.routes ≢ []
    pub routes : All (RouteIsValid urls) c.routes
    pub distinct : Distinct c.routes
    pub health_check : HealthCheckIsValid c.health_check
    pub upstream : UpstreamIsValid c.upstream
    pub retry : RetryIsValid c.retry
    pub debug : DebugIsValid c.debug
    pub endpoints : AllAgree c.health_check.endpoint c.routes

  eight-eq-ok_iff :
      (a b c d e f g h : Checked)
      → ((do a; b; c; d; e; f; g; h) ≡ ok tt) ↔ (
          (a ≡ ok tt)
          × (b ≡ ok tt)
          × (c ≡ ok tt)
          × (d ≡ ok tt)
          × (e ≡ ok tt)
          × (f ≡ ok tt)
          × (g ≡ ok tt)
          × (h ≡ ok tt))
  eight-eq-ok_iff a b c d e f g h = ground arith

  -- The validation accepts exactly the configurations that meet the field-by-field
  -- specification, among it distinct route prefixes and one health endpoint for each backend.
  pub validate_iff : (c : Config) → (validate urls c ≡ ok tt) ↔ ConfigIsValid c
  unfolding validate
  validate_iff c =
      let all =
        eight-eq-ok_iff (validate_server c.server)
          (refuse (is_empty c.routes) "at least one route must be configured")
          (validate_routes urls [] c.routes) (validate_health_check c.health_check)
          (validate_upstream c.upstream) (validate_retry c.retry) (validate_debug c.debug)
          (validate_route_health_endpoint_overrides c) in
      let routes = validate_routes_iff urls c.routes in
      (
        λ v.
            let (s, n, r, h, u, t, d, e) = all.0 v in
            record {
              server = (validate_server_iff c.server).0 s;
              nonempty = ground (arith, n);
              routes = (routes.0 r).0;
              distinct = (routes.0 r).1;
              health_check = (validate_health_check_iff c.health_check).0 h;
              upstream = (validate_upstream_iff c.upstream).0 u;
              retry = (validate_retry_iff c.retry).0 t;
              debug = (validate_debug_iff c.debug).0 d;
              endpoints = (validate_overrides_iff c).0 e;
            },
        λ v. all.1 (
          (validate_server_iff c.server).1 v.server,
          ground (arith, v.nonempty),
          routes.1 (v.routes, v.distinct),
          (validate_health_check_iff c.health_check).1 v.health_check,
          (validate_upstream_iff c.upstream).1 v.upstream,
          (validate_retry_iff c.retry).1 v.retry,
          (validate_debug_iff c.debug).1 v.debug,
          (validate_overrides_iff c).1 v.endpoints,
        ),
      )

  -- Loading returns a configuration exactly when the file is read, its text parses to that
  -- configuration, and the configuration meets the specification.
  pub load_from_file_iff :
      (read : Result String String) (from_str : String → Result String Config) (c : Config)
      → (load_from_file urls read from_str ≡ ok c) ↔ (
          (contents : String) × (read ≡ ok contents) × (from_str contents ≡ ok c) × ConfigIsValid c)
  unfolding load_from_file
  load_from_file_iff read from_str c =
      (to read, λ (contents, r, p, v). ground (arith, r, p, (validate_iff c).1 v))
    where
      to :
          (r : Result String String)
          → load_from_file urls r from_str ≡ ok c
          → (contents : String) × (r ≡ ok contents) × (from_str contents ≡ ok c) × ConfigIsValid c
      to (err e) h = cc
      to (ok contents) h = elim (Result-cases (from_str contents)) [
        | inl (d, p) ↦
            let same : d ≡ c = ground arith in
            (contents, refl, ground arith, (validate_iff c).0 (ground arith))
        | inr (e, p) ↦ ground arith
      ]

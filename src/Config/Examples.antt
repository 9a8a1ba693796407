-- ===== src/Config/Examples.antt =====
-- Configurations for src/config/mod.rs to check, with a parser of URLs that takes every text.
use ferrum_proxy.Common.{String, ◌≡◌, ◌↔◌, string_eq, none, some, List, [], ◌∷◌, Result, ok}
use ferrum_proxy.Config.Types.{RouteConfig, Config, round_robin}
use ferrum_proxy.Config.Defaults.{
  default_server, default_health_check, default_upstream, default_retry, default_debug,
}
use ferrum_proxy.Config.Validate.{UrlApi, validate, load_from_file}
use ferrum_proxy.Config.Documents.{minimal, config_of}
use ferrum_proxy.Config.Validate.Minimal.{IsUsable, validate-minimal_iff}
use ferrum_proxy.Config.Validate.Whole.{ConfigIsValid, validate_iff, load_from_file_iff}

abbrev any_url : UrlApi String
any_url = record { parse = ok; scheme = λ _. "http"; host_str = λ url. some url }

abbrev pub route_of : String → List String → RouteConfig
route_of prefix backends = record {
  path_prefix = prefix;
  backends = backends;
  balancing = round_robin;
  retry_on_statuses = 502 ∷ [];
  passive_failure_statuses = [];
  health_check_endpoint = none;
  connect_timeout_ms = none;
  read_timeout_ms = some 500;
  client_body_timeout_ms = none;
}

abbrev pub two_routes : List RouteConfig
two_routes = route_of "/" ("http://a" ∷ []) ∷ route_of "/api" ("http://b" ∷ "http://a" ∷ []) ∷ []

abbrev pub two_pools : Config
two_pools = record {
  server = default_server;
  routes = two_routes;
  health_check = default_health_check;
  upstream = default_upstream;
  retry = default_retry;
  debug = default_debug;
}

validate_iff_example : (validate any_url two_pools ≡ ok tt) ↔ ConfigIsValid any_url two_pools
validate_iff_example = validate_iff any_url two_pools

abbrev text : Result String String
text = ok "text"

abbrev parsed : String → Result String Config
parsed _ = ok two_pools

load_from_file_iff_example : (load_from_file any_url text parsed ≡ ok two_pools) ↔ (
    (contents : String) × (text ≡ ok contents)
    × (parsed contents ≡ ok two_pools)
    × ConfigIsValid any_url two_pools)
load_from_file_iff_example = load_from_file_iff any_url text parsed two_pools

validate-minimal_iff_example :
    (validate any_url (config_of (minimal 80 "localhost" 10 "/up" (("/", "http://a" ∷ []) ∷ [])))
      ≡ ok tt)
    ↔ IsUsable any_url 80 "localhost" 10 "/up" (("/", "http://a" ∷ []) ∷ [])
validate-minimal_iff_example =
    validate-minimal_iff any_url 80 "localhost" 10 "/up" (("/", "http://a" ∷ []) ∷ [])

-- ===== src/Routing.antt =====
-- src/routing/mod.rs: the choice of the route for a request path.
pub mod Matching
pub mod Longest
pub mod Examples
use ferrum_proxy.Common.{
  ℕ, String, Bool, ◌||◌, Option, none, some, List, [], ◌∷◌, leb, ◌==◌, string_eq, if◌then◌else◌,
  filter, ◌⧺◌, len, starts_with,
}
use ferrum_proxy.Config.{RouteConfig}

-- The closure of `filter`: the path is the prefix, or goes on behind it with a slash.
pub matches : String → RouteConfig → Bool
matches path route = path == route.path_prefix || starts_with path (route.path_prefix ⧺ "/")

-- `Iterator::max_by_key` returns the last of several greatest elements.
module _ {ℓ} {A : Type ℓ} (key : A → ℕ) where
  pub max_from : A → List A → A
  max_from best [] = best
  max_from best (x ∷ xs) = max_from (if leb (key best) (key x) then x else best) xs

  unfoldable pub max_by_key : List A → Option A
  unfolding max_from
  max_by_key [] = none
  max_by_key (x ∷ xs) = some (max_from x xs)

-- The length in bytes of UTF-8, which `len` counts as `str::len` does.
abbrev pub prefix_len : RouteConfig → ℕ
prefix_len route = len route.path_prefix

unfoldable pub match_route : String → List RouteConfig → Option RouteConfig
unfolding matches max_by_key
match_route path routes = max_by_key prefix_len (filter (matches path) routes)

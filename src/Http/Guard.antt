-- ===== src/Http/Guard.antt =====
-- The bearer token before the debug pages of src/http/mod.rs.
use ferrum_proxy.Common.{
  ℕ, ◌≡◌, ◌≢◌, ◌⊎◌, inl, inr, refl, ap, String, false, Option, none, some, ◌⧺◌, ◌==◌, string_eq,
  ==_of_ne, Bool-cases, Instant, arith,
}
use ferrum_proxy.Upstream.Headers.{HeaderApi}
use ferrum_proxy.Http.State.{Method, AppState}
use ferrum_proxy.Http.Respond.{
  Reply, header_text, is_text, unauthorized_debug_response, debug_request_authorized, internal_page,
  handle_internal_route,
}

is_text-false :
    (o : Option String) (expected : String) → o ≢ some expected → is_text o expected ≡ false
is_text-false none expected h = refl
is_text-false (some given) expected h = ==_of_ne given expected (λ same. h (ap some same))

module _ {Map Value : Type 0} (api : HeaderApi Map Value) (no_headers : Map) where
  unauthorized :
      (headers : Map) (s : AppState) (token : String)
      → s.config.debug.auth_token ≡ some token
      → header_text api (api.get "authorization" headers) ≢ some ("Bearer " ⧺ token)
      → debug_request_authorized api no_headers headers s ≡ false
  unfolding debug_request_authorized
  unauthorized headers s token e h =
      let x =
        is_text-false (header_text api (api.get "authorization" headers)) ("Bearer " ⧺ token) h in
      rw e x

  -- With a debug token configured, a request without exactly the header Bearer and that token
  -- gets from an internal route only the two public pages, or the refusal, which changes
  -- nothing.
  pub internal-guarded :
      (clock : ℕ → Instant) (method : Method) (path : String) (headers : Map) (s : AppState)
      (token : String) (p : AppState × Reply Map)
      → s.config.debug.auth_token ≡ some token
      → header_text api (api.get "authorization" headers) ≢ some ("Bearer " ⧺ token)
      → handle_internal_route api no_headers clock method path headers s ≡ some p
      → (path ≡ "/") ⊎ ((path ≡ "/health") ⊎ (p ≡ (s, unauthorized_debug_response api no_headers)))
  unfolding handle_internal_route internal_page
  internal-guarded clock method path headers s token p e h answered =
      let refused = unauthorized headers s token e h in
      elim (Bool-cases (path == "/")) [
        | inl root ↦ inl ((string_eq.decides path "/").0 root)
        | inr not_root ↦ elim (Bool-cases (path == "/health")) [
          | inl health ↦ inr (inl ((string_eq.decides path "/health").0 health))
          | inr not_health ↦ inr (inr (ground (arith, refused, answered)))
        ]
      ]

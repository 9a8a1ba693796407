-- ===== src/Routing/Matching.antt =====
-- Which paths a route of src/routing/mod.rs takes.
use Prim.Native.String.{slice}
use text.Mathlib.TextEquality.{eq_iff, starts_with_iff}
use text.Mathlib.TextLemmas.{append_assoc}
use text.Mathlib.TextPositions.{slice-append_left, slice_all}
use text.Mathlib.TextBridge.{IsPrefix}
use ferrum_proxy.Common.{
  String, ◌≡◌, sym, ap, ◌∙◌, ◌↔◌, ◌⊎◌, inl, inr, true, Bool-cases, arith, ◌⧺◌, len, starts_with,
  string_eq, ◌==◌, zero,
}
use ferrum_proxy.Config.{RouteConfig}
use ferrum_proxy.Routing.{matches}

-- The path is the prefix, or the prefix, a slash and more.
abbrev pub Takes : String → String → Type 0
Takes prefix path = (path ≡ prefix) ⊎ ((rest : String) × (path ≡ prefix ⧺ "/" ⧺ rest))

-- A route matches a path exactly when the path is its prefix, or its prefix followed by a slash
-- and any text.
pub matches_iff :
    (path : String) (route : RouteConfig)
    → (matches path route ≡ true) ↔ Takes route.path_prefix path
unfolding matches
matches_iff path route = (to, from)
  where
    next :
        (starts_with path (route.path_prefix ⧺ "/") ≡ true)
        ↔ IsPrefix (route.path_prefix ⧺ "/") path
    next = starts_with_iff path (route.path_prefix ⧺ "/")

    to : matches path route ≡ true → Takes route.path_prefix path
    to h = elim (Bool-cases (path == route.path_prefix)) [
      | inl same ↦ inl ((eq_iff path route.path_prefix).0 same)
      | inr other ↦
          let (rest, e) = next.0 (ground arith) in
          inr (rest, sym e ∙ append_assoc route.path_prefix "/" rest)
    ]

    from : Takes route.path_prefix path → matches path route ≡ true
    from (inl e) = ground (arith, eq_iff path route.path_prefix)
    from (inr (rest, e)) =
        let found = next.1 (rest, append_assoc route.path_prefix "/" rest ∙ sym e) in ground arith

-- A prefix that takes the path is its beginning.
Takes-slice : (prefix path : String) → Takes prefix path → slice path zero (len prefix) ≡ prefix
Takes-slice prefix path (inl e) = rw e (slice_all prefix)
Takes-slice prefix path (inr (rest, e)) = rw e (slice-append_left prefix ("/" ⧺ rest))

-- Two prefixes of one length that take the same path are one.
pub Takes-unique : (p q path : String) → Takes p path → Takes q path → len p ≡ len q → p ≡ q
Takes-unique p q path s t e =
    sym (Takes-slice p path s) ∙ ap (slice path zero) e ∙ Takes-slice q path t

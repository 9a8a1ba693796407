-- ===== src/Health/Entries.antt =====
-- The entries that src/health/mod.rs and src/telemetry/mod.rs make for the backends of routes.
use text.Mathlib.TextEquality.{eq_iff}
use ferrum_proxy.Common.{
  ◌≡◌, inl, inr, String, some, List, [], ◌∷◌, All, string_eq, lookup, or_insert, lookup-or_insert,
  Option-cases, arith,
}
use ferrum_proxy.Config.{RouteConfig}
use ferrum_proxy.Telemetry.{entries_of, entries_of_routes}
use ferrum_proxy.Health.State.{BackendHealth}

-- The entries that the backends of the routes get stay.
abbrev pub HasEntry : List (String × BackendHealth) → String → Type 0
HasEntry entries b = (s : BackendHealth) × (lookup b entries ≡ some s)

module _ (v : BackendHealth) where
  or_insert-HasEntry :
      (k b : String) (m : List (String × BackendHealth))
      → HasEntry m b
      → HasEntry (or_insert k v m) b
  or_insert-HasEntry k b m (s, e) = (s, ground (arith, e, lookup-or_insert k b v m))

  or_insert-HasEntry_same :
      (b : String) (m : List (String × BackendHealth)) → HasEntry (or_insert b v m) b
  or_insert-HasEntry_same b m = elim (Option-cases (lookup b m)) [
    | inl e ↦ (v, ground (arith, e, lookup-or_insert b b v m, eq_iff b b))
    | inr (s, e) ↦ (s, ground (arith, e, lookup-or_insert b b v m))
  ]

  entries_of-HasEntry :
      (l : List String) (b : String) (m : List (String × BackendHealth))
      → HasEntry m b
      → HasEntry (entries_of v l m) b
  entries_of-HasEntry [] b m h = h
  entries_of-HasEntry (k ∷ l) b m h =
      entries_of-HasEntry l b (or_insert k v m) (or_insert-HasEntry k b m h)

  entries_of-All :
      (l : List String) (m : List (String × BackendHealth)) → All (HasEntry (entries_of v l m)) l
  entries_of-All [] m = tt
  entries_of-All (b ∷ l) m = (
    entries_of-HasEntry l b (or_insert b v m) (or_insert-HasEntry_same b m),
    entries_of-All l (or_insert b v m),
  )

  entries_of_routes-HasEntry :
      (routes : List RouteConfig) (b : String) (m : List (String × BackendHealth))
      → HasEntry m b
      → HasEntry (entries_of_routes v routes m) b
  entries_of_routes-HasEntry [] b m h = h
  entries_of_routes-HasEntry (r ∷ rest) b m h =
      entries_of_routes-HasEntry rest b (entries_of v r.backends m)
        (entries_of-HasEntry r.backends b m h)

  entries_on :
      (rest : List RouteConfig) (m : List (String × BackendHealth)) (l : List String)
      → All (HasEntry m) l
      → All (HasEntry (entries_of_routes v rest m)) l
  entries_on rest m [] h = tt
  entries_on rest m (b ∷ l) (h, hs) =
      (entries_of_routes-HasEntry rest b m h, entries_on rest m l hs)

  pub entries_of_routes-All :
      (routes : List RouteConfig) (m : List (String × BackendHealth))
      → All (λ r. All (HasEntry (entries_of_routes v routes m)) r.backends) routes
  entries_of_routes-All [] m = tt
  entries_of_routes-All (r ∷ rest) m = (
    entries_on rest (entries_of v r.backends m) r.backends (entries_of-All r.backends m),
    entries_of_routes-All rest (entries_of v r.backends m),
  )

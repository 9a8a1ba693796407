-- ===== src/Health/CheckSet.antt =====
-- `unique_backend_checks` of src/health/mod.rs: which pairs of a backend and an endpoint it gives.
use ferrum_proxy.Common.{
  String, true, false, ◌≡◌, sym, ap, ◌∙◌, subst, ◌⊎◌, inl, inr, List, [], ◌∷◌, if◌then◌else◌, ◌==◌,
  string_eq, arith, In, contains, contains-In, In-contains, insert, contains-insert, Bool-cases,
  All, ◌||◌, ◌↔◌,
}
use ferrum_proxy.Config.{Config, RouteConfig}
use ferrum_proxy.Config.Validate.{route_endpoint}
use ferrum_proxy.Config.Validate.Endpoints.{AllAgree, Agrees}
use ferrum_proxy.Health.Checks.{
  checks_of, checks_of_routes, unique_backend_checks, pair_beq_iff, pair_eq,
}

-- A set as the list of its members: none of them twice.
abbrev pub Distinct : List (String × String) → Type 0
Distinct [] = Unit
Distinct (check ∷ rest) = (contains rest check ≡ false) × Distinct rest

insert-Distinct :
    (check : String × String) (checks : List (String × String))
    → Distinct checks
    → Distinct (insert check checks)
insert-Distinct check checks d = elim (Bool-cases (contains checks check)) [
  | inl there ↦ rw there d
  | inr missing ↦ rw missing (missing, d)
]

In-insert :
    (check added : String × String) (checks : List (String × String))
    → In check (insert added checks)
    → (check ≡ added) ⊎ In check checks
In-insert check added checks m = elim (Bool-cases (contains checks added)) [
  | inl there ↦ inr (subst (λ t. In check (if t then checks else added ∷ checks)) there m)
  | inr missing ↦ subst (λ t. In check (if t then checks else added ∷ checks)) missing m
]

insert-In :
    (check added : String × String) (checks : List (String × String))
    → (check ≡ added) ⊎ In check checks
    → In check (insert added checks)
insert-In check added checks m =
    contains-In check (insert added checks) (contains-insert added check checks ∙ go m)
  where
    go : (check ≡ added) ⊎ In check checks → ((added == check) || contains checks check) ≡ true
    go (inl e) = ground (arith, pair_beq_iff added check, sym e)
    go (inr i) = ground (arith, In-contains check checks i)

-- The loops keep the set one, and have in the end the pairs of the backends and what was there.
module _ (endpoint : String) where
  checks_of-Distinct :
      (l : List String) (checks : List (String × String))
      → Distinct checks
      → Distinct (checks_of endpoint l checks)
  unfolding checks_of
  checks_of-Distinct [] checks d = d
  checks_of-Distinct (b ∷ l) checks d =
      checks_of-Distinct l (insert (b, endpoint) checks) (insert-Distinct (b, endpoint) checks d)

  In-checks_of :
      (check : String × String) (l : List String) (checks : List (String × String))
      → In check (checks_of endpoint l checks)
      → (In check.0 l × (check.1 ≡ endpoint)) ⊎ In check checks
  unfolding checks_of
  In-checks_of check [] checks m = inr m
  In-checks_of check (b ∷ l) checks m =
      elim (In-checks_of check l (insert (b, endpoint) checks) m) [
        | inl (i, e) ↦ inl (inr i, e)
        | inr i ↦ elim (In-insert check (b, endpoint) checks i) [
          | inl e ↦ inl (inl (ap (λ c. c.0) e), ap (λ c. c.1) e)
          | inr j ↦ inr j
        ]
      ]

  checks_of-In :
      (check : String × String) (l : List String) (checks : List (String × String))
      → (In check.0 l × (check.1 ≡ endpoint)) ⊎ In check checks
      → In check (checks_of endpoint l checks)
  unfolding checks_of
  checks_of-In check [] checks (inl (i, e)) = elim i [ ]
  checks_of-In check [] checks (inr m) = m
  checks_of-In check (b ∷ l) checks m = checks_of-In check l (insert (b, endpoint) checks) (go m)
    where
      go :
          (In check.0 (b ∷ l) × (check.1 ≡ endpoint)) ⊎ In check checks
          → (In check.0 l × (check.1 ≡ endpoint)) ⊎ In check (insert (b, endpoint) checks)
      go (inl (inl e, q)) = inr (insert-In check (b, endpoint) checks (inl (ground (arith, e, q))))
      go (inl (inr i, q)) = inl (i, q)
      go (inr i) = inr (insert-In check (b, endpoint) checks (inr i))

-- The pairs that the routes give.
abbrev pub OfRoutes : String → String × String → List RouteConfig → Type 0
OfRoutes global check [] = ⊥
OfRoutes global check (r ∷ rest) =
    (In check.0 r.backends × (check.1 ≡ route_endpoint global r)) ⊎ OfRoutes global check rest

module _ (global : String) where
  checks_of_routes-Distinct :
      (routes : List RouteConfig) (checks : List (String × String))
      → Distinct checks
      → Distinct (checks_of_routes global routes checks)
  unfolding checks_of_routes
  checks_of_routes-Distinct [] checks d = d
  checks_of_routes-Distinct (r ∷ routes) checks d =
      checks_of_routes-Distinct routes (checks_of (route_endpoint global r) r.backends checks)
        (checks_of-Distinct (route_endpoint global r) r.backends checks d)

  In-checks_of_routes :
      (check : String × String) (routes : List RouteConfig) (checks : List (String × String))
      → In check (checks_of_routes global routes checks)
      → OfRoutes global check routes ⊎ In check checks
  unfolding checks_of_routes
  In-checks_of_routes check [] checks m = inr m
  In-checks_of_routes check (r ∷ routes) checks m =
      elim (In-checks_of_routes check routes (checks_of (route_endpoint global r) r.backends checks)
        m) [
          | inl of ↦ inl (inr of)
          | inr i ↦ elim (In-checks_of (route_endpoint global r) check r.backends checks i) [
            | inl here ↦ inl (inl here)
            | inr j ↦ inr j
          ]
        ]

  checks_of_routes-In :
      (check : String × String) (routes : List RouteConfig) (checks : List (String × String))
      → OfRoutes global check routes ⊎ In check checks
      → In check (checks_of_routes global routes checks)
  unfolding checks_of_routes
  checks_of_routes-In check [] checks (inl of) = elim of [ ]
  checks_of_routes-In check [] checks (inr m) = m
  checks_of_routes-In check (r ∷ routes) checks m =
      checks_of_routes-In check routes (checks_of (route_endpoint global r) r.backends checks)
        (go m)
    where
      go :
          OfRoutes global check (r ∷ routes) ⊎ In check checks
          → OfRoutes global check routes
            ⊎ In check (checks_of (route_endpoint global r) r.backends checks)
      go (inl (inl here)) =
          inr (checks_of-In (route_endpoint global r) check r.backends checks (inl here))
      go (inl (inr of)) = inl of
      go (inr i) = inr (checks_of-In (route_endpoint global r) check r.backends checks (inr i))

  -- Routes that agree give a backend one endpoint.
  Agrees-one :
      (r : RouteConfig) (check : String × String) (routes : List RouteConfig)
      → All (Agrees global r) routes
      → In check.0 r.backends
      → OfRoutes global check routes
      → check.1 ≡ route_endpoint global r
  Agrees-one r check (q ∷ rest) (a, more) i (inl (j, e)) = e ∙ sym (a check.0 i j)
  Agrees-one r check (q ∷ rest) (a, more) i (inr of) = Agrees-one r check rest more i of
  Agrees-one r check [] a i of = elim of [ ]

  pub OfRoutes-one :
      (b e f : String) (routes : List RouteConfig)
      → AllAgree global routes
      → OfRoutes global (b, e) routes
      → OfRoutes global (b, f) routes
      → f ≡ e
  OfRoutes-one b e f (r ∷ rest) (a, more) (inl (i, p)) (inl (j, q)) = q ∙ sym p
  OfRoutes-one b e f (r ∷ rest) (a, more) (inl (i, p)) (inr of) =
      Agrees-one r (b, f) rest a i of ∙ sym p
  OfRoutes-one b e f (r ∷ rest) (a, more) (inr of) (inl (j, q)) =
      q ∙ sym (Agrees-one r (b, e) rest a j of)
  OfRoutes-one b e f (r ∷ rest) (a, more) (inr o) (inr of) = OfRoutes-one b e f rest more o of
  OfRoutes-one b e f [] a o of = elim o [ ]

-- The checks of a configuration: none of them twice, and the pairs of its routes.
pub unique_backend_checks-Distinct : (c : Config) → Distinct (unique_backend_checks c)
unfolding unique_backend_checks
unique_backend_checks-Distinct c = checks_of_routes-Distinct c.health_check.endpoint c.routes [] tt

pub unique_backend_checks_iff :
    (c : Config) (check : String × String)
    → In check (unique_backend_checks c) ↔ OfRoutes c.health_check.endpoint check c.routes
unfolding unique_backend_checks
unique_backend_checks_iff c check = (
  λ m. elim (In-checks_of_routes c.health_check.endpoint check c.routes [] m) [
    | inl of ↦ of
    | inr i ↦ elim i [ ]
  ],
  λ of. checks_of_routes-In c.health_check.endpoint check c.routes [] (inl of),
)

-- ===== src/Config/Validate/Endpoints.antt =====
-- The check of src/config/mod.rs that a backend has one health check endpoint.
use ferrum_proxy.Common.{
  String, ◌≡◌, refl, subst, ◌↔◌, ◌⊎◌, inl, inr, Option, none, some, List, [], ◌∷◌, All, All-In, In,
  contains, contains-In, In-contains, string_eq, ok, arith, lookup, put, lookup-put, Bool-cases,
  Result-cases, if◌then◌else◌,
}
use text.Mathlib.TextEquality.{eq_iff}
use ferrum_proxy.Config.Types.{RouteConfig, Config}
use ferrum_proxy.Config.Validate.{
  route_endpoint, override_backends, override_routes, check_previous,
  validate_route_health_endpoint_overrides,
}

-- What `seen` says of a backend, if anything, is `endpoint`.
abbrev Fits : List (String × String) → String → String → Type 0
Fits seen endpoint backend = (lookup backend seen ≡ none) ⊎ (lookup backend seen ≡ some endpoint)

-- `seen'` is `seen` with `endpoint` entered for each backend of `l`.
abbrev Extends : String → List String → List (String × String) → List (String × String) → Type 0
Extends endpoint l seen seen' =
    (b : String) → lookup b seen' ≡ (if contains l b then some endpoint else lookup b seen)

check_previous_iff :
    (backend endpoint : String) (o : Option String)
    → (check_previous backend endpoint o ≡ ok tt) ↔ ((o ≡ none) ⊎ (o ≡ some endpoint))
unfolding check_previous
check_previous_iff backend endpoint none = ground arith
check_previous_iff backend endpoint (some previous) = ground (arith, eq_iff previous endpoint)

Fits-put :
    (endpoint backend : String) (seen : List (String × String)) (l : List String)
    → All (Fits seen endpoint) l
    → All (Fits (put backend endpoint seen) endpoint) l
Fits-put endpoint backend seen [] f = tt
Fits-put endpoint backend seen (b ∷ l) f =
    (ground (arith, lookup-put backend b endpoint seen), Fits-put endpoint backend seen l f.1)

put-Fits :
    (endpoint backend : String) (seen : List (String × String)) (l : List String)
    → Fits seen endpoint backend
    → All (Fits (put backend endpoint seen) endpoint) l
    → All (Fits seen endpoint) l
put-Fits endpoint backend seen [] g f = tt
put-Fits endpoint backend seen (b ∷ l) g f = (
  ground (arith, lookup-put backend b endpoint seen, eq_iff backend b),
  put-Fits endpoint backend seen l g f.1,
)

-- The inner loop succeeds exactly if the map fits, and then has entered the backends.
override_backends_sound :
    (endpoint : String) (l : List String) (seen seen' : List (String × String))
    → override_backends endpoint l seen ≡ ok seen'
    → All (Fits seen endpoint) l × Extends endpoint l seen seen'
unfolding override_backends
override_backends_sound endpoint [] seen seen' h = (tt, λ b. ground arith)
override_backends_sound endpoint (backend ∷ rest) seen seen' h =
    let check = check_previous_iff backend endpoint (lookup backend seen) in
    let here : Fits seen endpoint backend = ground (arith, check) in
    let tail : override_backends endpoint rest (put backend endpoint seen) ≡ ok seen' =
      ground arith in
    let (fits, extends) =
      override_backends_sound endpoint rest (put backend endpoint seen) seen' tail in
    (
      (here, put-Fits endpoint backend seen rest here fits),
      λ b. ground (arith, extends b, lookup-put backend b endpoint seen, eq_iff backend b),
    )

override_backends_complete :
    (endpoint : String) (l : List String) (seen : List (String × String))
    → All (Fits seen endpoint) l
    → (seen' : List (String × String)) × (override_backends endpoint l seen ≡ ok seen')
unfolding override_backends
override_backends_complete endpoint [] seen f = (seen, refl)
override_backends_complete endpoint (backend ∷ rest) seen (f, fs) =
    let (seen', e) =
      override_backends_complete endpoint rest (put backend endpoint seen)
        (Fits-put endpoint backend seen rest fs) in
    (seen', ground (arith, e, check_previous_iff backend endpoint (lookup backend seen)))

-- Two routes that share a backend have the same endpoint.
abbrev pub Agrees : String → RouteConfig → RouteConfig → Type 0
Agrees global r q =
    (b : String)
    → In b r.backends
    → In b q.backends
    → route_endpoint global r ≡ route_endpoint global q

abbrev pub AllAgree : String → List RouteConfig → Type 0
AllAgree global [] = Unit
AllAgree global (r ∷ rest) = All (Agrees global r) rest × AllAgree global rest

abbrev FitAll : String → List (String × String) → List RouteConfig → Type 0
FitAll global seen = All (λ r. All (Fits seen (route_endpoint global r)) r.backends)

-- Every entry is put in again by `Extends`, and an entry of `r` fits `q` if the two agree.
module _ (global : String) (r : RouteConfig) (seen seen' : List (String × String))
    (x : Extends (route_endpoint global r) r.backends seen seen') where
  Fits-back_one :
      (e b : String)
      → All (Fits seen (route_endpoint global r)) r.backends
      → Fits seen' e b
      → Fits seen e b
  Fits-back_one e b f g = elim (Bool-cases (contains r.backends b)) [
    | inl listed ↦
        let fits =
          All-In (Fits seen (route_endpoint global r)) b r.backends f
            (contains-In b r.backends listed) in
        let told = x b in ground arith
    | inr other ↦ let told = x b in ground arith
  ]

  Fits-back :
      (e : String) (l : List String)
      → All (Fits seen (route_endpoint global r)) r.backends
      → All (Fits seen' e) l
      → (All (Fits seen e) l)
        × ((b : String) → In b r.backends → In b l → route_endpoint global r ≡ e)
  Fits-back e [] f g = (tt, λ b i j. absurd j)
  Fits-back e (b ∷ l) f (g, gs) =
      let (ih, same) = Fits-back e l f gs in ((Fits-back_one e b f g, ih), there same)
    where
      there :
          ((c : String) → In c r.backends → In c l → route_endpoint global r ≡ e)
          → (c : String) → In c r.backends
          → In c (b ∷ l)
          → route_endpoint global r ≡ e
      there same c i (inl here) =
          let entered = In-contains b r.backends (subst (λ y. In y r.backends) here i) in
          let told = x b in ground arith
      there same c i (inr j) = same c i j

  Fits-on :
      (e : String) (l : List String)
      → All (Fits seen e) l
      → ((b : String) → In b r.backends → In b l → route_endpoint global r ≡ e)
      → All (Fits seen' e) l
  Fits-on e [] f g = tt
  Fits-on e (b ∷ l) (f, fs) g =
      (ground (arith, x b, contains-In b r.backends, g b), Fits-on e l fs (λ c i j. g c i (inr j)))

FitAll-sound :
    (global : String) (r : RouteConfig) (seen seen' : List (String × String))
    (rest : List RouteConfig)
    → Extends (route_endpoint global r) r.backends seen seen'
    → All (Fits seen (route_endpoint global r)) r.backends
    → FitAll global seen' rest
    → FitAll global seen rest × All (Agrees global r) rest
FitAll-sound global r seen seen' [] x f g = (tt, tt)
FitAll-sound global r seen seen' (q ∷ rest) x f (g, gs) =
    let (a, b) = Fits-back global r seen seen' x (route_endpoint global q) q.backends f g in
    let (c, d) = FitAll-sound global r seen seen' rest x f gs in ((a, c), (b, d))

FitAll-complete :
    (global : String) (r : RouteConfig) (seen seen' : List (String × String))
    (rest : List RouteConfig)
    → Extends (route_endpoint global r) r.backends seen seen'
    → FitAll global seen rest
    → All (Agrees global r) rest
    → FitAll global seen' rest
FitAll-complete global r seen seen' [] x f a = tt
FitAll-complete global r seen seen' (q ∷ rest) x (f, fs) (a, as') = (
  Fits-on global r seen seen' x (route_endpoint global q) q.backends f a,
  FitAll-complete global r seen seen' rest x fs as',
)

override_routes_iff :
    (global : String) (routes : List RouteConfig) (seen : List (String × String))
    → (override_routes global routes seen ≡ ok tt)
      ↔ (FitAll global seen routes × AllAgree global routes)
unfolding override_routes
override_routes_iff global [] seen = ground arith
override_routes_iff global (r ∷ rest) seen = (
  λ h. elim (Result-cases (override_backends (route_endpoint global r) r.backends seen)) [
    | inl (seen', e) ↦
        let (f, x) = override_backends_sound (route_endpoint global r) r.backends seen seen' e in
        let later : override_routes global rest seen' ≡ ok tt = ground arith in
        let (g, a) = (override_routes_iff global rest seen').0 later in
        let (g', a') = FitAll-sound global r seen seen' rest x f g in ((f, g'), (a', a))
    | inr (e', e) ↦ ground arith
  ],
  λ ((f, g), (a, b)).
      let (seen', e) = override_backends_complete (route_endpoint global r) r.backends seen f in
      let (_, x) = override_backends_sound (route_endpoint global r) r.backends seen seen' e in
      let g' = FitAll-complete global r seen seen' rest x g a in
      ground (arith, e, (override_routes_iff global rest seen').1 (g', b)),
)

FitAll-nil : (global : String) (routes : List RouteConfig) → FitAll global [] routes
FitAll-nil global [] = tt
FitAll-nil global (r ∷ rest) = (go r.backends, FitAll-nil global rest)
  where
    go : (l : List String) → All (Fits [] (route_endpoint global r)) l
    go [] = tt
    go (b ∷ l) = (inl refl, go l)

-- The check of the health endpoints succeeds exactly when any two routes that share a backend
-- give it the same endpoint.
pub validate_overrides_iff :
    (c : Config)
    → (validate_route_health_endpoint_overrides c ≡ ok tt)
      ↔ AllAgree c.health_check.endpoint c.routes
unfolding validate_route_health_endpoint_overrides
validate_overrides_iff c =
    let (to, from) = override_routes_iff c.health_check.endpoint c.routes [] in
    (λ h. (to h).1, λ a. from (FitAll-nil c.health_check.endpoint c.routes, a))

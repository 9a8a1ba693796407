-- ===== src/Routing/Longest.antt =====
-- The choice that `match_route` of src/routing/mod.rs makes.
use native.Mathlib.Nat.{le_antisymm}
use ferrum_proxy.Common.{
  ℕ, String, ◌≤◌, ◌≡◌, refl, sym, ap, subst, ◌∙◌, ◌↔◌, inl, inr, none, some, List, [], ◌∷◌,
  Bool-cases, Option-cases, arith, leb, In, All-In, filter, filter-In, In-filter, if◌then◌else◌,
  ◌≢◌,
}
use ferrum_proxy.Config.{RouteConfig}
use ferrum_proxy.Config.Validate.Routes.{Distinct}
use ferrum_proxy.Routing.{matches, max_from, max_by_key, prefix_len, match_route}
use ferrum_proxy.Routing.Matching.{Takes, matches_iff, Takes-unique}

module _ {A : Type 0} (key : A → ℕ) where
  max_from-In : (best : A) (l : List A) → In (max_from key best l) (best ∷ l)
  unfolding max_from
  max_from-In best [] = inl refl
  max_from-In best (y ∷ l) = elim (max_from-In (if leb (key best) (key y) then y else best) l) [
    | inl e ↦ elim (Bool-cases (leb (key best) (key y))) [
      | inl up ↦ inr (inl (e ∙ rw up refl))
      | inr down ↦ inl (e ∙ rw down refl)
    ]
    | inr m ↦ inr (inr m)
  ]

  -- No key of the fold is greater than that of its result.
  max_from-le_start : (best : A) (l : List A) → key best ≤ key (max_from key best l)
  unfolding max_from
  max_from-le_start best [] = omega arith
  max_from-le_start best (y ∷ l) =
      ground (arith, max_from-le_start (if leb (key best) (key y) then y else best) l)

  max_from-le : (best : A) (l : List A) (x : A) → In x l → key x ≤ key (max_from key best l)
  unfolding max_from
  max_from-le best [] x m = elim m [ ]
  max_from-le best (y ∷ l) x (inl e) =
      let start = max_from-le_start (if leb (key best) (key y) then y else best) l in
      rw e (ground (arith, start))
  max_from-le best (y ∷ l) x (inr m) =
      max_from-le (if leb (key best) (key y) then y else best) l x m

  max_by_key-eq-none : (l : List A) → max_by_key key l ≡ none → l ≡ []
  unfolding max_by_key
  max_by_key-eq-none [] h = refl
  max_by_key-eq-none (x ∷ l) h = cc

  max_by_key-eq-some :
      (l : List A) (r : A) → max_by_key key l ≡ some r → In r l × ((x : A) → In x l → key x ≤ key r)
  unfolding max_by_key
  max_by_key-eq-some [] r h = cc
  max_by_key-eq-some (x ∷ l) r h =
      let e : max_from key x l ≡ r = ground arith in
      (subst (λ y. In y (x ∷ l)) e (max_from-In x l), bound e)
    where
      bound : max_from key x l ≡ r → (y : A) → In y (x ∷ l) → key y ≤ key r
      bound e y (inl s) = rw (s, ← e) (max_from-le_start x l)
      bound e y (inr m) = rw (← e) (max_from-le x l y m)

-- The chosen route is configured, takes the path, and has the longest prefix of those that do.
pub record IsLongest (path : String) (routes : List RouteConfig) (r : RouteConfig) : Type 0 where
  pub listed : In r routes
  pub takes : Takes r.path_prefix path
  pub longest :
      (q : RouteConfig) → In q routes → Takes q.path_prefix path → prefix_len q ≤ prefix_len r

match_route_sound :
    (path : String) (routes : List RouteConfig) (r : RouteConfig)
    → match_route path routes ≡ some r
    → IsLongest path routes r
unfolding match_route
match_route_sound path routes r h =
    let (m, bound) = max_by_key-eq-some prefix_len (filter (matches path) routes) r h in
    let (listed, hit) = In-filter (matches path) r routes m in
    record {
      listed = listed;
      takes = (matches_iff path r).0 hit;
      longest = λ q i t. bound q (filter-In (matches path) q routes i ((matches_iff path q).1 t));
    }

-- No route is chosen exactly when no listed prefix takes the path.
pub match_route-eq-none_iff :
    (path : String) (routes : List RouteConfig)
    → (match_route path routes ≡ none)
      ↔ ((r : RouteConfig) → In r routes → ¬ Takes r.path_prefix path)
unfolding match_route
match_route-eq-none_iff path routes = (to, from)
  where
    to :
        match_route path routes ≡ none
        → (r : RouteConfig) → In r routes
        → ¬ Takes r.path_prefix path
    to h r i t =
        subst (In r) (max_by_key-eq-none prefix_len (filter (matches path) routes) h)
          (filter-In (matches path) r routes i ((matches_iff path r).1 t))

    from :
        ((r : RouteConfig) → In r routes → ¬ Takes r.path_prefix path)
        → match_route path routes ≡ none
    from h = elim (Option-cases (match_route path routes)) [
      | inl e ↦ e
      | inr (r, e) ↦ let v = match_route_sound path routes r e in absurd (h r v.listed v.takes)
    ]

Distinct-unique :
    (routes : List RouteConfig) (r q : RouteConfig)
    → Distinct routes
    → In r routes
    → In q routes
    → r.path_prefix ≡ q.path_prefix
    → r ≡ q
Distinct-unique (x ∷ routes) r q (d, ds) (inl a) (inl b) e = a ∙ sym b
Distinct-unique (x ∷ routes) r q (d, ds) (inl a) (inr b) e =
    absurd
      (All-In (λ y. y.path_prefix ≢ x.path_prefix) q routes d b (sym e ∙ ap (λ y. y.path_prefix) a))
Distinct-unique (x ∷ routes) r q (d, ds) (inr a) (inl b) e =
    absurd
      (All-In (λ y. y.path_prefix ≢ x.path_prefix) r routes d a (e ∙ ap (λ y. y.path_prefix) b))
Distinct-unique (x ∷ routes) r q (d, ds) (inr a) (inr b) e = Distinct-unique routes r q ds a b e
Distinct-unique [] r q d a b e = elim a [ ]

-- With distinct prefixes a route is chosen exactly if it is listed, its prefix takes the path,
-- and no listed prefix that takes the path is longer.
pub match_route_iff :
    (path : String) (routes : List RouteConfig) (r : RouteConfig)
    → Distinct routes
    → (match_route path routes ≡ some r) ↔ IsLongest path routes r
match_route_iff path routes r d = (match_route_sound path routes r, from)
  where
    from : IsLongest path routes r → match_route path routes ≡ some r
    from v = elim (Option-cases (match_route path routes)) [
      | inl e ↦ absurd ((match_route-eq-none_iff path routes).0 e r v.listed v.takes)
      | inr (q, e) ↦
          let w = match_route_sound path routes q e in
          let same =
            Takes-unique q.path_prefix r.path_prefix path w.takes v.takes
              (le_antisymm (v.longest q w.listed w.takes) (w.longest r v.listed v.takes)) in
          e ∙ ap some (Distinct-unique routes q r d w.listed v.listed same)
    ]

-- Two lists with the same routes and distinct prefixes give every path the same route.
pub match_route_order :
    (path : String) (routes others : List RouteConfig)
    → Distinct routes
    → Distinct others
    → ((r : RouteConfig) → In r routes ↔ In r others)
    → match_route path routes ≡ match_route path others
match_route_order path routes others d d' same = elim (Option-cases (match_route path routes)) [
  | inl e ↦
      e
      ∙ sym (
          (match_route-eq-none_iff path others).1
            λ r i. (match_route-eq-none_iff path routes).0 e r ((same r).1 i))
  | inr (r, e) ↦
      let v = (match_route_iff path routes r d).0 e in
      e
      ∙ sym (
          (match_route_iff path others r d').1 (record {
            listed = (same r).0 v.listed;
            takes = v.takes;
            longest = λ q i t. v.longest q ((same q).1 i) t;
          }))
]

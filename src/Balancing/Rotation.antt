-- ===== src/Balancing/Rotation.antt =====
-- Calls in a row of the round robin of src/balancing/mod.rs.
use mathlib.Core.List.{append-nil, append_assoc, map-append}
use mathlib.Core.Path.{ap₂}
use native.Mathlib.Decide.{dec_lt}
use native.Mathlib.Nat.{mod-add-mod, mod-eq_of_lt, mod_self}
use native.Mathlib.Numerals.{add-one}
use ferrum_proxy.Common.{
  u64_mod, take-append, take_all, drop_all, length-drop, length-take, length-map, length-append, ℕ,
  suc, zero, String, ◌+◌, ◌-◌, ◌%◌, ◌<◌, ◌≤◌, ◌≡◌, refl, sym, ◌∙◌, ap, Option, some, List, [], ◌∷◌,
  ◌++◌, map, length, get_elem?, take, drop, arith,
}
use ferrum_proxy.Config.{round_robin}
use ferrum_proxy.Balancing.{RouteBalancer, select}

-- The answers to `m` calls in a row with the same list.
pub selections : ℕ → RouteBalancer → List String → List (Option String)
selections zero b backends = []
selections (suc m) b backends = (select b backends).1 ∷ selections m (select b backends).0 backends

abbrev pub rotate : ℕ → List String → List String
rotate k xs = drop k xs ++ take k xs

rotate-step :
    (k : ℕ) (xs : List String)
    → k < length xs
    → (x : String) × (get_elem? xs k ≡ some x)
      × (drop k xs ≡ x ∷ drop (suc k) xs)
      × (take (suc k) xs ≡ take k xs ++ x ∷ [])
rotate-step k [] h = absurd (omega arith)
rotate-step zero (x ∷ xs) h = (x, refl, refl, refl)
rotate-step (suc k) (y ∷ xs) h =
    let (x, a, b, c) = rotate-step k xs (omega arith) in (x, a, b, ap (◌∷◌ y) c)

next_index : (c n k : ℕ) → c % n ≡ k → suc k < n → (c + 1) % n ≡ suc k
next_index c n k e h = sym (mod-add-mod c n 1) ∙ rw (e, add-one) (mod-eq_of_lt h)

wrap_index : (c n k : ℕ) → c % n ≡ k → suc k ≡ n → (c + 1) % n ≡ 0
wrap_index c n k e h = sym (mod-add-mod c n 1) ∙ rw (e, add-one, h) (mod_self n)

abbrev from : ℕ → RouteBalancer
from c = record { strategy = round_robin; counter = c }

-- The rotation without its first element, and the next rotation.
abbrev rest_of : ℕ → List String → List String
rest_of k xs = drop (suc k) xs ++ take k xs

length-rest_of : (k : ℕ) (xs : List String) → k < length xs → length (rest_of k xs) ≡ length xs - 1
length-rest_of k xs h = omega (
  arith,
  length-append (drop (suc k) xs) (take k xs),
  length-drop (suc k) xs,
  length-take k xs (omega arith),
)

next_rotation :
    (c k : ℕ) (xs : List String) (x : String)
    → c % length xs ≡ k
    → k < length xs
    → take (suc k) xs ≡ take k xs ++ x ∷ []
    → (k' : ℕ) × ((c + 1) % length xs ≡ k')
      × (k' < length xs)
      × (rotate k' xs ≡ rest_of k xs ++ x ∷ [])
next_rotation c k xs x e h t = elim (dec_lt (suc k) (length xs)) [
  | yes inside ↦ (
    suc k,
    next_index c (length xs) k e inside,
    inside,
    ap (◌++◌ (drop (suc k) xs)) t ∙ sym (append_assoc (drop (suc k) xs) (take k xs) (x ∷ [])),
  )
  | no last ↦
      let end : suc k ≡ length xs = omega arith in
      (
        0,
        wrap_index c (length xs) k e end,
        omega arith,
        append-nil xs
            ∙ sym (take_all xs)
            ∙ ap (λ n. take n xs) (sym end)
            ∙ t
            ∙ ap (λ l. (l ++ take k xs) ++ x ∷ [])
                (sym (drop_all xs) ∙ ap (λ n. drop n xs) (sym end)),
      )
]

selections-step :
    (m c : ℕ) (xs : List String)
    → selections (suc m) (from c) xs
      ≡ get_elem? xs (c % length xs) ∷ selections m (from ((c + 1) % u64_mod)) xs
unfolding selections select
selections-step m c xs = refl

-- The picks that are left after the first are those of the next rotation.
picks-next :
    (m k k' : ℕ) (xs : List String) (x : String)
    → m < length xs
    → k < length xs
    → drop k xs ≡ x ∷ drop (suc k) xs
    → rotate k' xs ≡ rest_of k xs ++ x ∷ []
    → some x ∷ take m (map some (rotate k' xs)) ≡ take (suc m) (map some (rotate k xs))
picks-next m k k' xs x le h split turn =
    ap (λ l. some x ∷ l)
      (ap (λ l. take m (map some l)) turn
        ∙ ap (take m) (map-append some (rest_of k xs) (x ∷ []))
        ∙ take-append m (map some (rest_of k xs)) (some x ∷ [])
            (omega (arith, length-map some (rest_of k xs), length-rest_of k xs h)))
    ∙ ap (λ l. take (suc m) (map some (l ++ take k xs))) (sym split)

selections-take :
    (m c k : ℕ) (xs : List String)
    → c % length xs ≡ k
    → k < length xs
    → m ≤ length xs
    → c + m ≤ u64_mod
    → selections m (from c) xs ≡ take m (map some (rotate k xs))
unfolding selections
selections-take zero c k xs e h m bound = refl
selections-take (suc zero) c k xs e h m bound =
    let (x, at, split, _) = rotate-step k xs h in rw (selections-step 0 c xs, e, at, split) refl
selections-take (suc (suc m)) c k xs e h le bound =
    let (x, at, split, t) = rotate-step k xs h in
    let (k', e', h', turn) = next_rotation c k xs x e h t in
    let small : (c + 1) % u64_mod ≡ c + 1 = omega arith in
    let ih = selections-take (suc m) (c + 1) k' xs e' h' (omega arith) (omega arith) in
    selections-step (suc m) c xs
    ∙ ap₂ (λ o l. o ∷ l) (ap (get_elem? xs) e ∙ at)
        (ap (λ d. selections (suc m) (from d) xs) small ∙ ih)
    ∙ picks-next (suc m) k k' xs x (omega arith) h split turn

-- In a round robin over a nonempty list, before the counter wraps, as many calls as there are
-- backends choose each place of the list once, in the order of the list from the place of the
-- counter on and around the end.
pub selections-rotate :
    (b : RouteBalancer) (backends : List String)
    → b.strategy ≡ round_robin
    → 0 < length backends
    → b.counter + length backends ≤ u64_mod
    → selections (length backends) b backends
      ≡ map some (rotate (b.counter % length backends) backends)
selections-rotate b xs rr h bound =
    let k : ℕ = b.counter % length xs in
    let same : b ≡ from b.counter = ground arith in
    ap (λ d. selections (length xs) d xs) same
    ∙ selections-take (length xs) b.counter k xs refl (omega arith) (omega arith) bound
    ∙ ap (λ n. take n (map some (rotate k xs))) (sym full)
    ∙ take_all (map some (rotate k xs))
  where
    full : length (map some (rotate (b.counter % length xs) xs)) ≡ length xs
    full = omega (
      arith,
      length-map some (rotate (b.counter % length xs) xs),
      length-append (drop (b.counter % length xs) xs) (take (b.counter % length xs) xs),
      length-drop (b.counter % length xs) xs,
      length-take (b.counter % length xs) xs (omega arith),
    )

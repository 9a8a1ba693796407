-- ===== src/Common/Maps.antt =====
-- `HashMap` as an association list without repeated keys. Its order of iteration is left open in
-- the source, and no caller of these functions depends on it.
use Prim.Native.Nat.{ℕ, ◌+◌, ◌%◌}
use mathlib.Core.Path.{◌≡◌, refl}
use mathlib.Core.List.{List, [], ◌∷◌}
use mathlib.Core.Option.{Option, none, some}
use native.Mathlib.Omega.{arith}
use ferrum_proxy.Common.Tests.{if◌then◌else◌, Eq, ◌==◌, u64_mod}

module _ {κ} {V : Type κ} where
  abbrev pub on_value : (V → V) → Option V → Option V
  on_value f none = none
  on_value f (some v) = some (f v)

  abbrev pub or_value : Option V → V → Option V
  or_value none v = some v
  or_value (some w) v = some w

module _ {ℓ κ} {K : Type ℓ} ⦃e : Eq K⦄ {V : Type κ} where
  -- `HashMap::get`
  abbrev pub lookup : K → List (K × V) → Option V
  lookup k [] = none
  lookup k ((j, v) ∷ m) = let rest = lookup k m in if j == k then some v else rest

  -- `HashMap::insert`: a key that is there gets the new value.
  abbrev pub put : K → V → List (K × V) → List (K × V)
  put k v [] = (k, v) ∷ []
  put k v ((j, w) ∷ m) = let rest = put k v m in if j == k then (k, v) ∷ m else (j, w) ∷ rest

  -- `entry(k).or_insert_with(v)`: a key that is there keeps its value.
  abbrev pub or_insert : K → V → List (K × V) → List (K × V)
  or_insert k v [] = (k, v) ∷ []
  or_insert k v ((j, w) ∷ m) =
      let rest = or_insert k v m in if j == k then (j, w) ∷ m else (j, w) ∷ rest

  -- A write through the reference that `get` returns; without the key nothing is written.
  abbrev pub modify : K → (V → V) → List (K × V) → List (K × V)
  modify k f [] = []
  modify k f ((j, w) ∷ m) =
      let rest = modify k f m in if j == k then (j, f w) ∷ m else (j, w) ∷ rest

  pub lookup-put :
      (k j : K) (v : V) (m : List (K × V))
      → lookup j (put k v m) ≡ (if k == j then some v else lookup j m)
  lookup-put k j v [] = refl
  lookup-put k j v ((i, w) ∷ m) =
      ground (arith, e.decides k j, e.decides i k, e.decides i j, lookup-put k j v m)

  pub lookup-or_insert :
      (k j : K) (v : V) (m : List (K × V))
      → lookup j (or_insert k v m) ≡ (if k == j then or_value (lookup j m) v else lookup j m)
  lookup-or_insert k j v [] = ground arith
  lookup-or_insert k j v ((i, w) ∷ m) =
      ground (arith, e.decides k j, e.decides i k, e.decides i j, lookup-or_insert k j v m)

  pub lookup-modify :
      (k j : K) (f : V → V) (m : List (K × V))
      → lookup j (modify k f m) ≡ (if k == j then on_value f (lookup j m) else lookup j m)
  lookup-modify k j f [] = ground arith
  lookup-modify k j f ((i, w) ∷ m) =
      ground (arith, e.decides k j, e.decides i k, e.decides i j, lookup-modify k j f m)

-- `*entry(k).or_insert(0) += 1`, on a `u64`
module _ {ℓ} {K : Type ℓ} ⦃e : Eq K⦄ where
  abbrev pub count : K → List (K × ℕ) → ℕ
  count k m = elim (lookup k m) [ none ↦ 0 | some n ↦ n ]

  abbrev pub bump : K → List (K × ℕ) → List (K × ℕ)
  bump k m = put k ((count k m + 1) % u64_mod) m

  pub count-bump :
      (k j : K) (m : List (K × ℕ))
      → count j (bump k m) ≡ (if k == j then (count k m + 1) % u64_mod else count j m)
  count-bump k j m = ground (arith, e.decides k j, lookup-put k j ((count k m + 1) % u64_mod) m)

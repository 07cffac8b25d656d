-- ===== src/Prelude/Totals.antt =====
-- Sums over the entries of a map.
use Prim.Native.Nat.{ℕ, ◌+◌, ◌≤◌}
use netbaiot.Prelude.Tests.{Eq}
use netbaiot.Prelude.Map.{lookup, insert, remove, Distinct}
use mathlib.Core.Path.{◌≡◌, refl}
use mathlib.Core.List.{List, [], ◌∷◌}
use mathlib.Core.Option.{Option, none, some}
use native.Mathlib.Omega.{arith}

-- The sum of a weight over the entries of a map.
module _ {K V : Type 0} ⦃e : Eq K⦄ where
  unfoldable pub total : (K → V → ℕ) → List (K × V) → ℕ
  total weight [] = 0
  total weight ((k, v) ∷ m) = weight k v + total weight m

  abbrev pub entry_weight : (K → V → ℕ) → K → Option V → ℕ
  entry_weight weight k none = 0
  entry_weight weight k (some v) = weight k v

  pub total-insert :
      (weight : K → V → ℕ) (k : K) (v : V) (m : List (K × V))
      → total weight (insert k v m) + entry_weight weight k (lookup k m)
        ≡ total weight m + weight k v
  unfolding total insert lookup
  total-insert weight k v [] = omega arith
  total-insert weight k v ((j, w) ∷ m) = ground (arith, e.beq_iff j k, total-insert weight k v m)

  pub total-absent :
      (weight : K → V → ℕ) (k : K) (m : List (K × V))
      → lookup k m ≡ none
      → total weight (remove k m) ≡ total weight m
  unfolding total remove lookup
  total-absent weight k [] absent = refl
  total-absent weight k ((j, w) ∷ m) absent = ground (arith, e.beq_iff j k, total-absent weight k m)

  pub total-remove :
      (weight : K → V → ℕ) (k : K) (m : List (K × V))
      → Distinct m
      → total weight (remove k m) + entry_weight weight k (lookup k m) ≡ total weight m
  unfolding total remove lookup
  total-remove weight k [] d = omega arith
  total-remove weight k ((j, w) ∷ m) d =
      ground (arith, e.beq_iff j k, total-remove weight k m d.1, total-absent weight k m)

  pub entry-within :
      (weight : K → V → ℕ) (k : K) (m : List (K × V))
      → entry_weight weight k (lookup k m) ≤ total weight m
  unfolding total lookup
  entry-within weight k [] = omega arith
  entry-within weight k ((j, w) ∷ m) = ground (arith, e.beq_iff j k, entry-within weight k m)

  -- Where one weight vanishes as a whole, so does another that vanishes with it.
  pub total-vanishes :
      (weight other : K → V → ℕ) (m : List (K × V))
      → ((k : K) (v : V) → weight k v ≡ 0 → other k v ≡ 0)
      → total weight m ≡ 0
      → total other m ≡ 0
  unfolding total
  total-vanishes weight other [] h z = refl
  total-vanishes weight other ((k, v) ∷ m) h z =
      omega (arith, h k v (omega (arith, z)), total-vanishes weight other m h (omega (arith, z)))

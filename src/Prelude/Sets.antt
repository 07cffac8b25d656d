-- ===== src/Prelude/Sets.antt =====
-- `HashSet` as a list without repetitions, and `BTreeMap` as an association list in ascending order.
use Prim.Native.Nat.{ℕ, ◌<◌, compare, Ordering}
use netbaiot.Prelude.Tests.{Eq, if◌then◌else◌, nat_eq}
use netbaiot.Prelude.Map.{lookup, remove}
use mathlib.Core.Path.{◌≡◌, refl}
use mathlib.Core.Bool.{Bool, true, false}
use mathlib.Core.List.{List, [], ◌∷◌}
use mathlib.Core.Option.{none, some}
use native.Mathlib.Omega.{arith}

module _ {ℓ} {K : Type ℓ} ⦃e : Eq K⦄ where
  unfoldable pub contains : K → List K → Bool
  contains k [] = false
  contains k (j ∷ set) = if e.beq j k then true else contains k set

  unfoldable pub add : K → List K → List K
  add k set = if contains k set then set else k ∷ set

  unfoldable pub discard : K → List K → List K
  discard k [] = []
  discard k (j ∷ set) = let rest = discard k set in if e.beq j k then rest else j ∷ rest

  pub contains-add :
      (k j : K) (set : List K)
      → contains j (add k set) ≡ (if e.beq k j then true else contains j set)
  unfolding contains add
  contains-add k j set = ground (arith, e.beq_iff k j)

  pub contains-discard :
      (k j : K) (set : List K)
      → contains j (discard k set) ≡ (if e.beq k j then false else contains j set)
  unfolding contains discard
  contains-discard k j [] = ground arith
  contains-discard k j (i ∷ set) =
      ground (arith, e.beq_iff k j, e.beq_iff i k, e.beq_iff i j, contains-discard k j set)

module _ {V : Type 0} where
  -- `BTreeMap::insert`
  unfoldable pub insert_ordered : ℕ → V → List (ℕ × V) → List (ℕ × V)
  insert_ordered k v [] = (k, v) ∷ []
  insert_ordered k v ((j, w) ∷ m) =
      let rest = insert_ordered k v m in
      elim (compare k j) [
        | Ordering.lt ↦ (k, v) ∷ (j, w) ∷ m
        | Ordering.eq ↦ (k, v) ∷ m
        | Ordering.gt ↦ (j, w) ∷ rest
      ]

  abbrev pub Above : ℕ → List (ℕ × V) → Type 0
  Above k [] = Unit {0}
  Above k ((j, w) ∷ m) = (k < j) × Above k m

  abbrev pub Ascending : List (ℕ × V) → Type 0
  Ascending [] = Unit {0}
  Ascending ((j, w) ∷ m) = Above j m × Ascending m

  pub Above-less : (k j : ℕ) (m : List (ℕ × V)) → k < j → Above j m → Above k m
  Above-less k j [] h a = tt
  Above-less k j ((i, w) ∷ m) h a = (omega (arith, a.0), Above-less k j m h a.1)

  pub Above-absent : (k : ℕ) (m : List (ℕ × V)) → Above k m → lookup k m ≡ none
  unfolding lookup
  Above-absent k [] a = refl
  Above-absent k ((i, w) ∷ m) a = ground (arith, Above-absent k m a.1)

  insert_ordered-Above :
      (k j : ℕ) (v : V) (m : List (ℕ × V)) → j < k → Above j m → Above j (insert_ordered k v m)
  unfolding insert_ordered
  insert_ordered-Above k j v [] h a = (h, tt)
  insert_ordered-Above k j v ((i, w) ∷ m) h a =
      ground (arith, insert_ordered-Above k j v m h a.1, Above-less j k m h)

  pub insert_ordered-Ascending :
      (k : ℕ) (v : V) (m : List (ℕ × V)) → Ascending m → Ascending (insert_ordered k v m)
  unfolding insert_ordered
  insert_ordered-Ascending k v [] a = (tt, tt)
  insert_ordered-Ascending k v ((i, w) ∷ m) a =
      ground
        (arith, insert_ordered-Above k i v m, Above-less k i m, insert_ordered-Ascending k v m a.1)

  pub lookup-insert_ordered :
      (k j : ℕ) (v : V) (m : List (ℕ × V))
      → lookup j (insert_ordered k v m) ≡ (if nat_eq.beq k j then some v else lookup j m)
  unfolding lookup insert_ordered
  lookup-insert_ordered k j v [] = refl
  lookup-insert_ordered k j v ((i, w) ∷ m) = ground (arith, lookup-insert_ordered k j v m)

  remove-Above : (k j : ℕ) (m : List (ℕ × V)) → Above j m → Above j (remove k m)
  unfolding remove
  remove-Above k j [] a = tt
  remove-Above k j ((i, w) ∷ m) a = ground (arith, remove-Above k j m a.1)

  pub remove-Ascending : (k : ℕ) (m : List (ℕ × V)) → Ascending m → Ascending (remove k m)
  unfolding remove
  remove-Ascending k [] a = tt
  remove-Ascending k ((i, w) ∷ m) a =
      ground (arith, remove-Above k i m a.0, remove-Ascending k m a.1)

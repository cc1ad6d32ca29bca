-- ===== src/Prelude/Dict.antt =====
-- Go maps with numeric keys, as association lists behind their laws.
use Prim.Native.Nat.{ℕ, ◌+◌, ◌≤◌, ◌<◌}
use mathlib.Core.Path.{◌≡◌, refl, ap}
use mathlib.Core.Bool.{Bool, true, false}
use mathlib.Core.List.{List, [], ◌∷◌}
use mathlib.Core.Option.{Option, none, some}
use native.Mathlib.Omega.{arith}
use go_raknet.Prelude.Tests.{◌==◌, if◌then◌else◌}
use go_raknet.Prelude.Lists.{length}

module _ {ℓ} {V : Type ℓ} where
  unfoldable pub lookup : ℕ → List (ℕ × V) → Option V
  lookup k [] = none
  lookup k ((j, v) ∷ m) = if j == k then some v else lookup k m

  unfoldable pub delete : ℕ → List (ℕ × V) → List (ℕ × V)
  delete k [] = []
  delete k ((j, v) ∷ m) = let rest = delete k m in if j == k then rest else ((j, v) ∷ rest)

  -- `m[k] = v`
  unfoldable pub insert : ℕ → V → List (ℕ × V) → List (ℕ × V)
  unfolding delete
  insert k v m = (k, v) ∷ delete k m

  abbrev pub has : ℕ → List (ℕ × V) → Bool
  has k m = elim (lookup k m) [ none ↦ false | some v ↦ true ]

  pub lookup-delete :
      (k j : ℕ) (m : List (ℕ × V)) → lookup j (delete k m) ≡ (if k == j then none else lookup j m)
  unfolding lookup delete
  lookup-delete k j [] = ground arith
  lookup-delete k j ((i, w) ∷ m) = ground (arith, lookup-delete k j m)

  pub lookup-insert :
      (k j : ℕ) (v : V) (m : List (ℕ × V))
      → lookup j (insert k v m) ≡ (if k == j then some v else lookup j m)
  unfolding lookup insert
  lookup-insert k j v m = ground (arith, lookup-delete k j m)

  pub length-delete-le : (k : ℕ) (m : List (ℕ × V)) → length (delete k m) ≤ length m
  unfolding delete
  length-delete-le k [] = omega arith
  length-delete-le k ((j, v) ∷ m) = ground (arith, length-delete-le k m)

  -- A key that is present leaves.
  pub length-delete-lt :
      (k : ℕ) (m : List (ℕ × V)) {v : V} → lookup k m ≡ some v → length (delete k m) < length m
  unfolding delete lookup
  length-delete-lt k [] h = cc
  length-delete-lt k ((j, w) ∷ m) {v} h =
      ground (arith, length-delete-lt k m {v = v}, length-delete-le k m)

  pub length-insert-le : (k : ℕ) (v : V) (m : List (ℕ × V)) → length (insert k v m) ≤ length m + 1
  unfolding insert
  length-insert-le k v m = omega (arith, length-delete-le k m)

  pub length-insert-le_self :
      (k : ℕ) (v : V) (m : List (ℕ × V)) {w : V}
      → lookup k m ≡ some w
      → length (insert k v m) ≤ length m
  unfolding insert
  length-insert-le_self k v m h = omega (arith, length-delete-lt k m h)

pub ruleset dict_laws = (lookup-insert, lookup-delete)

module _ {ℓ} {V : Type ℓ} where
  -- Each key stands once.
  abbrev pub Distinct : List (ℕ × V) → Type ℓ
  Distinct [] = Unit {ℓ}
  Distinct ((k, v) ∷ m) = (lookup k m ≡ none) × Distinct m

  pub delete-Distinct : (k : ℕ) (m : List (ℕ × V)) → Distinct m → Distinct (delete k m)
  unfolding delete
  delete-Distinct k [] d = tt
  delete-Distinct k ((j, v) ∷ m) d = ground (arith, delete-Distinct k m d.1, lookup-delete k j m)

  pub insert-Distinct : (k : ℕ) (v : V) (m : List (ℕ × V)) → Distinct m → Distinct (insert k v m)
  unfolding insert
  insert-Distinct k v m d = (ground (arith, lookup-delete k k m), delete-Distinct k m d)

  -- Deleting a key that is not there changes nothing.
  pub delete_absent : (k : ℕ) (m : List (ℕ × V)) → lookup k m ≡ none → delete k m ≡ m
  unfolding delete lookup
  delete_absent k [] h = refl
  delete_absent k ((j, v) ∷ m) h = ground (arith, delete_absent k m)

  -- The sum of a measure of the values.
  unfoldable pub total : (V → ℕ) → List (ℕ × V) → ℕ
  total f [] = 0
  total f ((k, v) ∷ m) = f v + total f m

  pub total-delete :
      (f : V → ℕ) (k : ℕ) (m : List (ℕ × V)) {v : V}
      → Distinct m
      → lookup k m ≡ some v
      → total f (delete k m) + f v ≡ total f m
  unfolding total delete lookup
  total-delete f k [] d h = cc
  total-delete f k ((j, w) ∷ m) {v} d h =
      ground (arith, total-delete f k m {v = v} d.1, delete_absent k m, same_key)
    where
      same_key : j ≡ k → lookup j m ≡ lookup k m
      same_key e = ap (λ i. lookup i m) e

  pub total-insert :
      (f : V → ℕ) (k : ℕ) (v : V) (m : List (ℕ × V))
      → lookup k m ≡ none
      → total f (insert k v m) ≡ f v + total f m
  unfolding total insert
  total-insert f k v m h = rw (delete_absent k m h) refl

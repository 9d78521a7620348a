-- ===== src/Std/Dict.antt =====
-- A Go `map[K]V`: `m[k]`, `m[k] = v`, `delete(m, k)` and `len(m)`, as an association list. The
-- order of the list is one order in which `range` may visit the map.
use netgoat.Prelude.{
  ◌+◌, ◌≤◌, ◌<◌, ◌≡◌, refl, Option, none, some, List, [], ◌∷◌, arith, length, Eq, ◌==◌,
  if◌then◌else◌,
}

abbrev pub Dict {ℓ κ} : Type ℓ → Type κ → Type (ℓ ⊔ κ)
Dict K V = List (K × V)

module _ {ℓ κ} {K : Type ℓ} {V : Type κ} ⦃e : Eq K⦄ where
  unfoldable pub lookup : K → Dict K V → Option V
  lookup k [] = none
  lookup k ((j, v) ∷ m) = if j == k then some v else lookup k m

  unfoldable pub insert : K → V → Dict K V → Dict K V
  insert k v [] = (k, v) ∷ []
  insert k v ((j, w) ∷ m) = if j == k then (k, v) ∷ m else (j, w) ∷ insert k v m

  unfoldable pub delete : K → Dict K V → Dict K V
  delete k [] = []
  delete k ((j, w) ∷ m) = if j == k then delete k m else (j, w) ∷ delete k m

module _ {ℓ κ} {K : Type ℓ} {V : Type κ} ⦃e : Eq K⦄ (k : K) where
  pub lookup-insert :
      (j : K) (v : V) (m : Dict K V)
      → lookup j (insert k v m) ≡ (if k == j then some v else lookup j m)
  unfolding lookup insert
  lookup-insert j v [] = refl
  lookup-insert j v ((i, w) ∷ m) =
      ground (arith, e.beq_iff k j, e.beq_iff i k, e.beq_iff i j, lookup-insert j v m)

  pub lookup-delete :
      (j : K) (m : Dict K V) → lookup j (delete k m) ≡ (if k == j then none else lookup j m)
  unfolding lookup delete
  lookup-delete j [] = ground arith
  lookup-delete j ((i, w) ∷ m) =
      ground (arith, e.beq_iff k j, e.beq_iff i k, e.beq_iff i j, lookup-delete j m)

  pub length-delete-le : (m : Dict K V) → length (delete k m) ≤ length m
  unfolding delete
  length-delete-le [] = omega arith
  length-delete-le ((i, w) ∷ m) = ground (arith, length-delete-le m)

  pub length-delete-lt :
      (v : V) (m : Dict K V) → lookup k m ≡ some v → length (delete k m) < length m
  unfolding lookup delete
  length-delete-lt v [] h = ground arith
  length-delete-lt v ((i, w) ∷ m) h = ground (arith, length-delete-le m, length-delete-lt v m)

  pub length-insert-le : (v : V) (m : Dict K V) → length (insert k v m) ≤ length m + 1
  unfolding insert
  length-insert-le v [] = omega arith
  length-insert-le v ((i, w) ∷ m) = ground (arith, length-insert-le v m)

  pub length-insert_present :
      (v w : V) (m : Dict K V) → lookup k m ≡ some w → length (insert k v m) ≡ length m
  unfolding lookup insert
  length-insert_present v w [] h = ground arith
  length-insert_present v w ((i, u) ∷ m) h = ground (arith, length-insert_present v w m)

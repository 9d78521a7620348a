-- ===== src/Prelude/Lists.antt =====
-- Lists measured and indexed by native numbers, under the library's names, and predicates on every
-- element.
use Prim.Native.Nat.{ℕ, zero, suc, ◌+◌, ◌≤◌, ◌<◌}
use mathlib.Core.Path.{◌≡◌, refl, ap}
use mathlib.Core.List.{List, [], ◌∷◌, ◌++◌}
use mathlib.Core.Option.{Option, none, some}
use native.Mathlib.Omega.{arith}

module _ {ℓ} {A : Type ℓ} where
  abbrev pub length : List A → ℕ
  length [] = 0
  length (x ∷ xs) = suc (length xs)

  abbrev pub get_elem? : List A → ℕ → Option A
  get_elem? [] i = none
  get_elem? (x ∷ xs) zero = some x
  get_elem? (x ∷ xs) (suc i) = get_elem? xs i

  abbrev pub take : ℕ → List A → List A
  take zero xs = []
  take (suc n) [] = []
  take (suc n) (x ∷ xs) = x ∷ take n xs

  -- The last element.
  abbrev pub last? : List A → Option A
  last? [] = none
  last? (x ∷ []) = some x
  last? (x ∷ y ∷ r) = last? (y ∷ r)

  abbrev pub head? : List A → Option A
  head? [] = none
  head? (x ∷ _) = some x

  -- The list without its last element.
  abbrev pub drop_last : List A → List A
  drop_last [] = []
  drop_last (x ∷ []) = []
  drop_last (x ∷ y ∷ r) = x ∷ drop_last (y ∷ r)

  pub length-append : (xs ys : List A) → length (xs ++ ys) ≡ length xs + length ys
  length-append [] ys = omega arith
  length-append (x ∷ xs) ys = omega (arith, length-append xs ys)

  pub get_elem?_total : (xs : List A) (i : ℕ) → i < length xs → (x : A) × (get_elem? xs i ≡ some x)
  get_elem?_total [] i h = absurd (omega arith)
  get_elem?_total (x ∷ xs) zero h = (x, refl)
  get_elem?_total (x ∷ xs) (suc i) h = get_elem?_total xs i (omega arith)

  pub get_elem?-lt : (xs : List A) (i : ℕ) (x : A) → get_elem? xs i ≡ some x → i < length xs
  get_elem?-lt [] i x h = cc
  get_elem?-lt (y ∷ xs) zero x h = omega arith
  get_elem?-lt (y ∷ xs) (suc i) x h = omega (arith, get_elem?-lt xs i x h)

  pub last?_total : (x : A) (xs : List A) → (y : A) × (last? (x ∷ xs) ≡ some y)
  last?_total x [] = (x, refl)
  last?_total x (y ∷ xs) = last?_total y xs

  pub take_of_length-le : (k : ℕ) (l : List A) → length l ≤ k → take k l ≡ l
  take_of_length-le zero [] short = refl
  take_of_length-le zero (x ∷ l) short = absurd (omega arith)
  take_of_length-le (suc k) [] short = refl
  take_of_length-le (suc k) (x ∷ l) short =
      let rest : length l ≤ k = omega arith in ap (◌∷◌ x) (take_of_length-le k l rest)

  pub take-eq-drop_last : (n : ℕ) (xs : List A) → length xs ≡ suc n → take n xs ≡ drop_last xs
  take-eq-drop_last n [] h = absurd (omega arith)
  take-eq-drop_last zero (x ∷ []) h = refl
  take-eq-drop_last zero (x ∷ y ∷ xs) h = absurd (omega arith)
  take-eq-drop_last (suc n) (x ∷ []) h = absurd (omega arith)
  take-eq-drop_last (suc n) (x ∷ y ∷ xs) h = ap (◌∷◌ x) (take-eq-drop_last n (y ∷ xs) (omega arith))

module _ {ℓ κ} {A : Type ℓ} (P : A → Type κ) where
  abbrev pub All : List A → Type κ
  All [] = Unit
  All (x ∷ xs) = P x × All xs

  pub All-append : (xs ys : List A) → All xs → All ys → All (xs ++ ys)
  All-append [] ys _ h = h
  All-append (x ∷ xs) ys (p, h) k = (p, All-append xs ys h k)

  pub All-get_elem? : (xs : List A) (i : ℕ) (x : A) → All xs → get_elem? xs i ≡ some x → P x
  All-get_elem? [] i x h e = cc
  All-get_elem? (y ∷ xs) zero x (p, h) e = subst' e p
    where
      subst' : some y ≡ some x → P y → P x
      subst' q r = let same : y ≡ x = cc in rw same at r
  All-get_elem? (y ∷ xs) (suc i) x (p, h) e = All-get_elem? xs i x h e

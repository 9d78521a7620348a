-- ===== src/Std/Sort.antt =====
-- `sort.SliceStable` under a test that compares, and the first element of a sorted list that another
-- test accepts.
use netgoat.Prelude.{
  ◌≡◌, refl, ap, sym, Bool, true, false, Option, none, some, List, [], ◌∷◌, if◌then◌else◌, arith,
  Bool-cases, Option-cases, inl, inr, All,
}

module _ {ℓ} {A : Type ℓ} where
  -- The first element that passes.
  unfoldable pub find_first : (A → Bool) → List A → Option A
  find_first p [] = none
  find_first p (x ∷ l) = if p x then some x else find_first p l

  unfoldable pub keep : (A → Bool) → List A → List A
  keep p [] = []
  keep p (x ∷ l) = if p x then x ∷ keep p l else keep p l

  module _ (before : A → A → Bool) where
    unfoldable pub insert_sorted : A → List A → List A
    insert_sorted x [] = x ∷ []
    insert_sorted x (y ∷ l) = if before y x then y ∷ insert_sorted x l else x ∷ y ∷ l

    unfoldable pub sort_stable : List A → List A
    sort_stable [] = []
    sort_stable (x ∷ l) = insert_sorted x (sort_stable l)

    -- The least of the elements that pass, the first one among equals, with no sorting.
    unfoldable pub prefer : A → Option A → A
    prefer x none = x
    prefer x (some y) = if before y x then y else x

    unfoldable pub best : (A → Bool) → List A → Option A
    best p [] = none
    best p (x ∷ l) = if p x then some (prefer x (best p l)) else best p l

    -- No element stands before one that stands in front of it.
    abbrev IsSorted : List A → Type 0
    IsSorted [] = Unit
    IsSorted (x ∷ l) = All (λ y. before y x ≡ false) l × IsSorted l

    module _ (weak : (x y z : A) → before y x ≡ false → before z y ≡ false → before z x ≡ false)
        (asym : (x y : A) → before y x ≡ true → before x y ≡ false) where
      later :
          (x y : A) (l : List A)
          → before y x ≡ false
          → All (λ z. before z y ≡ false) l
          → All (λ z. before z x ≡ false) l
      later x y [] h a = tt
      later x y (z ∷ l) h (b, a) = (weak x y z h b, later x y l h a)

      All-insert_sorted :
          (y x : A) (l : List A)
          → before x y ≡ false
          → All (λ z. before z y ≡ false) l
          → All (λ z. before z y ≡ false) (insert_sorted x l)
      unfolding insert_sorted
      All-insert_sorted y x [] h a = (h, tt)
      All-insert_sorted y x (z ∷ l) h (b, a) = elim (Bool-cases (before z x)) [
        | inl e ↦ rw e (b, All-insert_sorted y x l h a)
        | inr e ↦ rw e (h, (b, a))
      ]

      insert_sorted-IsSorted : (x : A) (l : List A) → IsSorted l → IsSorted (insert_sorted x l)
      unfolding insert_sorted
      insert_sorted-IsSorted x [] s = (tt, tt)
      insert_sorted-IsSorted x (y ∷ l) (a, s) = elim (Bool-cases (before y x)) [
        | inl e ↦ rw e (All-insert_sorted y x l (asym x y e) a, insert_sorted-IsSorted x l s)
        | inr e ↦ rw e ((e, later x y l e a), (a, s))
      ]

      sort_stable-IsSorted : (l : List A) → IsSorted (sort_stable l)
      unfolding sort_stable
      sort_stable-IsSorted [] = tt
      sort_stable-IsSorted (x ∷ l) =
          insert_sorted-IsSorted x (sort_stable l) (sort_stable-IsSorted l)

      find_first-All :
          (P : A → Type 0) (p : A → Bool) (l : List A) (y : A)
          → All P l
          → find_first p l ≡ some y
          → P y
      unfolding find_first
      find_first-All P p [] y a e = cc
      find_first-All P p (x ∷ l) y (b, a) e = elim (Bool-cases (p x)) [
        | inl h ↦ let same : x ≡ y = ground (arith, h, e) in rw same at b
        | inr h ↦ find_first-All P p l y a (ground (arith, h, e))
      ]

      prefer_first :
          (x : A) (p : A → Bool) (l : List A)
          → All (λ z. before z x ≡ false) l
          → prefer x (find_first p l) ≡ x
      unfolding prefer
      prefer_first x p l a = elim (Option-cases (find_first p l)) [
        | inl e ↦ rw e refl
        | inr (y, e) ↦
            let kept = find_first-All (λ z. before z x ≡ false) p l y a e in rw (e, kept) refl
      ]

      find_first-insert_sorted :
          (p : A → Bool) (x : A) (l : List A)
          → IsSorted l
          → find_first p (insert_sorted x l)
            ≡ (if p x then some (prefer x (find_first p l)) else find_first p l)
      unfolding find_first insert_sorted prefer
      find_first-insert_sorted p x [] s = refl
      find_first-insert_sorted p x (y ∷ l) (a, s) = elim (Bool-cases (before y x)) [
        | inl e ↦ elim (Bool-cases (p y)) [
          | inl h ↦
              rw (e, h) (elim (Bool-cases (p x)) [ inl k ↦ rw (k, e) refl | inr k ↦ rw k refl ])
          | inr h ↦ rw (e, h) (find_first-insert_sorted p x l s)
        ]
        | inr e ↦
            let kept = prefer_first x p (y ∷ l) (e, later x y l e a) in
            rw e (elim (Bool-cases (p x)) [ inl k ↦ rw k (ap some (sym kept)) | inr k ↦ rw k refl ])
      ]

      pub find_first-sort_stable :
          (p : A → Bool) (l : List A) → find_first p (sort_stable l) ≡ best p l
      unfolding sort_stable best find_first
      find_first-sort_stable p [] = refl
      find_first-sort_stable p (x ∷ l) =
          rw
            (
              find_first-insert_sorted p x (sort_stable l) (sort_stable-IsSorted l),
              find_first-sort_stable p l,
            )
            refl

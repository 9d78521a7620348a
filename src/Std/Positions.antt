-- ===== src/Std/Positions.antt =====
-- Where the keys of a linked list's values stand: the handle of each key, and what deleting,
-- appending and replacing an element do to it.
use netgoat.Prelude.{
  ℕ, ◌+◌, ◌≤◌, ◌<◌, ◌≡◌, refl, ap, Option, none, some, [], ◌∷◌, ◌++◌, arith, Eq, ◌==◌,
  if◌then◌else◌, Bool-cases, inl, inr, ==_refl, eq_of_==, nat_eq,
}
use netgoat.Std.Dict.{Dict, lookup, insert, delete, lookup-insert, lookup-delete}

module _ {κ} {A : Type κ} where
  -- Every handle lies below `n`.
  abbrev pub IsBelow : ℕ → Dict ℕ A → Type 0
  IsBelow n [] = Unit
  IsBelow n ((h, _) ∷ r) = (h < n) × IsBelow n r

  pub IsBelow-fresh : (n h : ℕ) (r : Dict ℕ A) → IsBelow n r → n ≤ h → lookup h r ≡ none
  unfolding lookup
  IsBelow-fresh n h [] b q = refl
  IsBelow-fresh n h ((j, _) ∷ r) (p, b) q = ground (arith, IsBelow-fresh n h r b q)

  pub IsBelow-suc : (n : ℕ) (r : Dict ℕ A) → IsBelow n r → IsBelow (n + 1) r
  IsBelow-suc n [] b = tt
  IsBelow-suc n ((j, _) ∷ r) (p, b) = (omega arith, IsBelow-suc n r b)

  pub IsBelow-delete : (n h : ℕ) (r : Dict ℕ A) → IsBelow n r → IsBelow n (delete h r)
  unfolding delete
  IsBelow-delete n h [] b = tt
  IsBelow-delete n h ((j, _) ∷ r) (p, b) = ground (arith, IsBelow-delete n h r b)

  pub IsBelow-insert :
      (n h : ℕ) (a : A) (r : Dict ℕ A) → IsBelow n r → h < n → IsBelow n (insert h a r)
  unfolding insert
  IsBelow-insert n h a [] b q = (q, tt)
  IsBelow-insert n h a ((j, _) ∷ r) (p, b) q = ground (arith, IsBelow-insert n h a r b q)

  pub IsBelow-append :
      (n h : ℕ) (a : A) (r : Dict ℕ A) → IsBelow n r → h < n → IsBelow n (r ++ (h, a) ∷ [])
  IsBelow-append n h a [] b q = (q, tt)
  IsBelow-append n h a ((j, _) ∷ r) (p, b) q = (p, IsBelow-append n h a r b q)

  pub IsBelow-value : (n h : ℕ) (a : A) (r : Dict ℕ A) → IsBelow n r → lookup h r ≡ some a → h < n
  unfolding lookup
  IsBelow-value n h a [] b q = cc
  IsBelow-value n h a ((j, _) ∷ r) (p, b) q = ground (arith, IsBelow-value n h a r b)

  pub delete_absent : (h : ℕ) (r : Dict ℕ A) → lookup h r ≡ none → delete h r ≡ r
  unfolding lookup delete
  delete_absent h [] q = refl
  delete_absent h ((j, b) ∷ r) q = ground (arith, delete_absent h r)

  pub lookup-append :
      (j h : ℕ) (a : A) (r : Dict ℕ A)
      → lookup h r ≡ none
      → lookup j (r ++ (h, a) ∷ []) ≡ (if h == j then some a else lookup j r)
  unfolding lookup
  lookup-append j h a [] q = refl
  lookup-append j h a ((i, b) ∷ r) q = ground (arith, lookup-append j h a r)

module _ {ℓ κ} {K : Type ℓ} {A : Type κ} ⦃e : Eq K⦄ (key : A → K) where
  -- The handle of the first element with the key.
  unfoldable pub handle_of : K → Dict ℕ A → Option ℕ
  handle_of k [] = none
  handle_of k ((h, a) ∷ r) = if key a == k then some h else handle_of k r

  -- No handle and no key twice.
  abbrev pub IsDistinct : Dict ℕ A → Type κ
  IsDistinct [] = Unit
  IsDistinct ((h, a) ∷ r) = (lookup h r ≡ none) × (handle_of (key a) r ≡ none) × IsDistinct r

  pub handle_of-value :
      (r : Dict ℕ A) (h : ℕ) (a : A)
      → IsDistinct r
      → lookup h r ≡ some a
      → handle_of (key a) r ≡ some h
  unfolding handle_of lookup
  handle_of-value [] h a d p = cc
  handle_of-value ((j, b) ∷ r) h a (fresh, once, d) p = elim (Bool-cases (j == h)) [
    | inl same ↦
        let q : b ≡ a = ground (arith) in
        rw (ap key q, ==_refl (key a)) (ap some (eq_of_== j h same))
    | inr other ↦
        let found = handle_of-value r h a d (ground arith) in
        elim (Bool-cases (key b == key a)) [
          | inl clash ↦ let q = eq_of_== (key b) (key a) clash in cc
          | inr apart ↦ rw apart found
        ]
  ]

  pub value-handle_of :
      (r : Dict ℕ A) (k : K) (h : ℕ)
      → IsDistinct r
      → handle_of k r ≡ some h
      → (a : A) × (lookup h r ≡ some a) × (key a ≡ k)
  unfolding handle_of lookup
  value-handle_of [] k h d p = cc
  value-handle_of ((j, b) ∷ r) k h (fresh, once, d) p = elim (Bool-cases (key b == k)) [
    | inl here ↦ (b, ground (arith, ==_refl h), eq_of_== (key b) k here)
    | inr later ↦
        let (a, found, named) = value-handle_of r k h d (ground arith) in (a, ground (arith), named)
  ]

  pub handle_of-delete_absent :
      (k : K) (h : ℕ) (r : Dict ℕ A) → handle_of k r ≡ none → handle_of k (delete h r) ≡ none
  unfolding handle_of delete
  handle_of-delete_absent k h [] q = refl
  handle_of-delete_absent k h ((j, b) ∷ r) q = ground (arith, handle_of-delete_absent k h r)

  -- Without the element of a key that key has no handle, and the other keys keep theirs.
  pub handle_of-delete :
      (k : K) (h : ℕ) (a : A) (r : Dict ℕ A)
      → IsDistinct r
      → lookup h r ≡ some a
      → handle_of k (delete h r) ≡ (if key a == k then none else handle_of k r)
  unfolding handle_of lookup delete
  handle_of-delete k h a [] d q = cc
  handle_of-delete k h a ((j, b) ∷ r) (fresh, once, d) q = elim (Bool-cases (j == h)) [
    | inl same ↦ ground (arith, delete_absent h r, e.beq_iff (key a) k, e.beq_iff (key b) k)
    | inr other ↦ ground (
      arith,
      handle_of-delete k h a r d,
      handle_of-value r h a d,
      e.beq_iff (key a) k,
      e.beq_iff (key b) k,
    )
  ]

  pub IsDistinct-delete : (h : ℕ) (r : Dict ℕ A) → IsDistinct r → IsDistinct (delete h r)
  unfolding delete
  IsDistinct-delete h [] d = tt
  IsDistinct-delete h ((j, b) ∷ r) (fresh, once, d) = elim (Bool-cases (j == h)) [
    | inl same ↦ rw same (IsDistinct-delete h r d)
    | inr other ↦ rw other (
      ground (arith, lookup-delete h j r),
      handle_of-delete_absent (key b) h r once,
      IsDistinct-delete h r d,
    )
  ]

  pub handle_of-append :
      (k : K) (h : ℕ) (a : A) (r : Dict ℕ A)
      → handle_of (key a) r ≡ none
      → handle_of k (r ++ (h, a) ∷ []) ≡ (if key a == k then some h else handle_of k r)
  unfolding handle_of
  handle_of-append k h a [] q = refl
  handle_of-append k h a ((j, b) ∷ r) q = ground (
    arith,
    handle_of-append k h a r,
    e.beq_iff (key a) k,
    e.beq_iff (key b) k,
    e.beq_iff (key b) (key a),
  )

  pub IsDistinct-append :
      (h : ℕ) (a : A) (r : Dict ℕ A)
      → IsDistinct r
      → lookup h r ≡ none
      → handle_of (key a) r ≡ none
      → IsDistinct (r ++ (h, a) ∷ [])
  unfolding lookup handle_of
  IsDistinct-append h a [] d p q = (refl, refl, tt)
  IsDistinct-append h a ((j, b) ∷ r) (fresh, once, d) p q = (
    ground (arith, lookup-append j h a r),
    ground (
      arith,
      handle_of-append (key b) h a r,
      e.beq_iff (key a) (key b),
      e.beq_iff (key b) (key a),
    ),
    IsDistinct-append h a r d (ground arith) (ground arith),
  )

  -- A value may be replaced by one with the same key.
  pub handle_of-insert :
      (k : K) (h : ℕ) (a b : A) (r : Dict ℕ A)
      → lookup h r ≡ some a
      → key b ≡ key a
      → handle_of k (insert h b r) ≡ handle_of k r
  unfolding handle_of lookup insert
  handle_of-insert k h a b [] p q = cc
  handle_of-insert k h a b ((j, c) ∷ r) p q = elim (Bool-cases (j == h)) [
    | inl same ↦ let u : c ≡ a = ground arith in ground (arith, ap key u, eq_of_== j h same)
    | inr other ↦ ground (arith, handle_of-insert k h a b r)
  ]

  pub IsDistinct-insert :
      (h : ℕ) (a b : A) (r : Dict ℕ A)
      → IsDistinct r
      → lookup h r ≡ some a
      → key b ≡ key a
      → IsDistinct (insert h b r)
  unfolding lookup insert
  IsDistinct-insert h a b [] d p q = cc
  IsDistinct-insert h a b ((j, c) ∷ r) (fresh, once, d) p q = elim (Bool-cases (j == h)) [
    | inl same ↦
        let u : c ≡ a = ground arith in
        rw same (rw (← eq_of_== j h same) fresh, rw (q, ← ap key u) once, d)
    | inr other ↦ rw other (
      ground (arith, lookup-insert h j b r),
      ground (arith, handle_of-insert (key c) h a b r),
      IsDistinct-insert h a b r d (ground arith) q,
    )
  ]

-- ===== src/Std/Table/Timed.antt =====
-- The entries of a table in the order in which they expire.
use netgoat.Prelude.{
  ℕ, ◌≤◌, ◌≡◌, sym, ap, ◌∙◌, Bool-cases, inl, inr, some, [], ◌∷◌, ◌++◌, ◌==◌, nat_eq, arith,
}
use netgoat.Std.Dict.{Dict, lookup, insert, delete}

module _ {κ} {A : Type κ} (expires : A → ℕ) (P : A → Type 0) where
  -- Each entry has the property and expires between `lo` and `hi`, and none before an earlier one.
  unfoldable pub IsTimed : ℕ → ℕ → Dict ℕ A → Type 0
  IsTimed lo hi [] = Unit
  IsTimed lo hi ((_, a) ∷ r) = P a × (lo ≤ expires a) × (expires a ≤ hi) × IsTimed (expires a) hi r

  pub IsTimed-lower : (lo lo' hi : ℕ) (r : Dict ℕ A) → lo' ≤ lo → IsTimed lo hi r → IsTimed lo' hi r
  unfolding IsTimed
  IsTimed-lower lo lo' hi [] q t = tt
  IsTimed-lower lo lo' hi ((_, a) ∷ r) q (p, l, u, t) = (p, omega arith, u, t)

  pub IsTimed-upper : (lo hi hi' : ℕ) (r : Dict ℕ A) → hi ≤ hi' → IsTimed lo hi r → IsTimed lo hi' r
  unfolding IsTimed
  IsTimed-upper lo hi hi' [] q t = tt
  IsTimed-upper lo hi hi' ((_, a) ∷ r) q (p, l, u, t) =
      (p, l, omega arith, IsTimed-upper (expires a) hi hi' r q t)

  pub IsTimed-delete : (lo hi h : ℕ) (r : Dict ℕ A) → IsTimed lo hi r → IsTimed lo hi (delete h r)
  unfolding IsTimed delete
  IsTimed-delete lo hi h [] t = tt
  IsTimed-delete lo hi h ((j, a) ∷ r) (p, l, u, t) = elim (Bool-cases (j == h)) [
    | inl same ↦ rw same (IsTimed-delete lo hi h r (IsTimed-lower (expires a) lo hi r l t))
    | inr other ↦ rw other (p, l, u, IsTimed-delete (expires a) hi h r t)
  ]

  pub IsTimed-insert :
      (lo hi h : ℕ) (a b : A) (r : Dict ℕ A)
      → lookup h r ≡ some a
      → expires b ≡ expires a
      → P b
      → IsTimed lo hi r
      → IsTimed lo hi (insert h b r)
  unfolding IsTimed insert lookup
  IsTimed-insert lo hi h a b [] at same good t = cc
  IsTimed-insert lo hi h a b ((j, c) ∷ r) at same good (p, l, u, t) = elim (Bool-cases (j == h)) [
    | inl here ↦
        let e : c ≡ a = ground arith in
        let s : expires b ≡ expires c = same ∙ ap expires (sym e) in
        rw here (good, omega (arith, s), omega (arith, s), rw s t)
    | inr later ↦
        rw later (p, l, u, IsTimed-insert (expires c) hi h a b r (ground arith) same good t)
  ]

  pub IsTimed-append :
      (lo hi h : ℕ) (a : A) (r : Dict ℕ A)
      → lo ≤ expires a
      → hi ≤ expires a
      → P a
      → IsTimed lo hi r
      → IsTimed lo (expires a) (r ++ (h, a) ∷ [])
  unfolding IsTimed
  IsTimed-append lo hi h a [] q q' good t = (good, q, omega arith, tt)
  IsTimed-append lo hi h a ((_, b) ∷ r) q q' good (p, l, u, t) =
      (p, l, omega arith, IsTimed-append (expires b) hi h a r (omega arith) q' good t)

  pub IsTimed-value :
      (lo hi h : ℕ) (a : A) (r : Dict ℕ A)
      → lookup h r ≡ some a
      → IsTimed lo hi r
      → P a × (lo ≤ expires a) × (expires a ≤ hi)
  unfolding IsTimed lookup
  IsTimed-value lo hi h a [] at t = cc
  IsTimed-value lo hi h a ((j, b) ∷ r) at (p, l, u, t) = elim (Bool-cases (j == h)) [
    | inl here ↦ let e : b ≡ a = ground arith in rw (sym e) (p, l, u)
    | inr later ↦
        let (good, low, high) = IsTimed-value (expires b) hi h a r (ground arith) t in
        (good, omega arith, high)
  ]

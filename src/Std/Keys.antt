-- ===== src/Std/Keys.antt =====
-- Maps without a key that stands twice, and their entries one by one.
use netgoat.Prelude.{
  ◌≡◌, refl, none, some, [], ◌∷◌, ◌==◌, arith, Eq, Bool-cases, inl, inr, eq_of_==,
}
use netgoat.Std.Dict.{Dict, lookup, insert, delete, lookup-insert, lookup-delete}

module _ {ℓ κ} {K : Type ℓ} {V : Type κ} ⦃e : Eq K⦄ where
  unfoldable pub IsKeyed : Dict K V → Type κ
  IsKeyed [] = Unit
  IsKeyed ((k, v) ∷ d) = (lookup k d ≡ none) × IsKeyed d

  pub IsKeyed-delete : (k : K) (d : Dict K V) → IsKeyed d → IsKeyed (delete k d)
  unfolding IsKeyed delete
  IsKeyed-delete k [] h = tt
  IsKeyed-delete k ((j, v) ∷ d) (new, h) = elim (Bool-cases (j == k)) [
    | inl same ↦ rw same (IsKeyed-delete k d h)
    | inr other ↦ rw other (ground (arith, lookup-delete k j d, new), IsKeyed-delete k d h)
  ]

  pub IsKeyed-insert : (k : K) (v : V) (d : Dict K V) → IsKeyed d → IsKeyed (insert k v d)
  unfolding IsKeyed insert lookup
  IsKeyed-insert k v [] h = (refl, tt)
  IsKeyed-insert k v ((j, w) ∷ d) (new, h) = elim (Bool-cases (j == k)) [
    | inl same ↦ rw same (rw (← eq_of_== j k same) new, h)
    | inr other ↦ rw other (
      ground (arith, lookup-insert k j v d, other, e.beq_iff k j, e.beq_iff j k, new),
      IsKeyed-insert k v d h,
    )
  ]

  -- Every entry of a list is what the map holds for its key.
  unfoldable pub Agrees : Dict K V → Dict K V → Type κ
  Agrees m [] = Unit
  Agrees m ((k, v) ∷ d) = (lookup k m ≡ some v) × Agrees m d

  pub Agrees-delete :
      (k : K) (m d : Dict K V) → lookup k d ≡ none → Agrees m d → Agrees (delete k m) d
  unfolding Agrees lookup
  Agrees-delete k m [] gone h = tt
  Agrees-delete k m ((j, v) ∷ d) gone (at, h) = (
    ground (arith, lookup-delete k j m, e.beq_iff k j, e.beq_iff j k, gone, at),
    Agrees-delete k m d (ground (arith, gone)) h,
  )

  Agrees-cons :
      (k : K) (v : V) (m d : Dict K V) → lookup k d ≡ none → Agrees m d → Agrees ((k, v) ∷ m) d
  unfolding Agrees lookup
  Agrees-cons k v m [] gone h = tt
  Agrees-cons k v m ((j, w) ∷ d) gone (at, h) = (
    ground (arith, e.beq_iff k j, e.beq_iff j k, gone, at),
    Agrees-cons k v m d (ground (arith, gone)) h,
  )

  pub Agrees-self : (d : Dict K V) → IsKeyed d → Agrees d d
  unfolding Agrees IsKeyed lookup
  Agrees-self [] h = tt
  Agrees-self ((k, v) ∷ d) (new, h) =
      (ground (arith, e.beq_iff k k), Agrees-cons k v d d new (Agrees-self d h))

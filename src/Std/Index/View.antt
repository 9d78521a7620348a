-- ===== src/Std/Index/View.antt =====
-- What an indexed list holds, seen as a plain list of values with distinct keys: the handles and
-- the map are forgotten.
use netgoat.Prelude.{
  ◌≤◌, length-append, ℕ, suc, ◌≡◌, refl, ap, ◌∙◌, sym, Option, none, some, List, [], ◌∷◌, ◌++◌,
  nat_eq, if◌then◌else◌, arith, Eq, ◌==◌, Bool-cases, Option-cases, inl, inr, eq_of_==, ◌>>=◌,
  length, last?, drop_last,
}
use netgoat.Std.Dict.{Dict, lookup, insert, length-delete-lt, length-insert_present, delete}
use netgoat.Std.Linked.{
  Linked, value, back, remove, set_value, push_front, push_back, move_to_front, move_to_back,
}
use netgoat.Std.Positions.{handle_of, IsDistinct, handle_of-value, value-handle_of, delete_absent}
use netgoat.Std.Index.{IsIndexed}

module _ {κ} {A : Type κ} where
  pub values : Dict ℕ A → List A
  values [] = []
  values ((_, a) ∷ r) = a ∷ values r

  pub values-nil : values [] ≡ []
  unfolding values
  values-nil = refl

  pub values-append :
      (r : Dict ℕ A) (h : ℕ) (a : A) → values (r ++ (h, a) ∷ []) ≡ values r ++ a ∷ []
  unfolding values
  values-append [] h a = refl
  values-append ((j, b) ∷ r) h a = ap (◌∷◌ b) (values-append r h a)

  pub length-values : (r : Dict ℕ A) → length (values r) ≡ length r
  unfolding values
  length-values [] = refl
  length-values ((_, _) ∷ r) = ap suc (length-values r)

  pub drop_last-values : (r : Dict ℕ A) → drop_last (values r) ≡ values (drop_last r)
  unfolding values
  drop_last-values [] = refl
  drop_last-values ((_, a) ∷ []) = refl
  drop_last-values ((_, a) ∷ (j, b) ∷ r) = ap (◌∷◌ a) (drop_last-values ((j, b) ∷ r))

module _ {κ} {A : Type κ} (l : Linked A) where
  pub values-push_front : (a : A) → values (push_front a l).elems ≡ a ∷ values l.elems
  unfolding push_front values
  values-push_front a = refl

  pub values-push_back : (a : A) → values (push_back a l).elems ≡ values l.elems ++ a ∷ []
  unfolding push_back
  values-push_back a = values-append l.elems l.next a

module _ {κ} {A : Type κ} (h : ℕ) (l : Linked A) where
  pub length-move_to_front-le : length (move_to_front h l).elems ≤ length l.elems
  unfolding move_to_front
  length-move_to_front-le = elim (Option-cases (value h l)) [
    | inl gone ↦ rw (gone, move_to_front) (omega arith)
    | inr (a, at) ↦ rw (at, move_to_front) (length-delete-lt h a l.elems at)
  ]

  pub length-move_to_back-le : length (move_to_back h l).elems ≤ length l.elems
  unfolding move_to_back
  length-move_to_back-le = elim (Option-cases (value h l)) [
    | inl gone ↦ rw (gone, move_to_back) (omega arith)
    | inr (a, at) ↦
        rw (at, move_to_back) (rw length-append (omega (arith, length-delete-lt h a l.elems at)))
  ]

  pub value-move_to_front : (a : A) → value h l ≡ some a → value h (move_to_front h l) ≡ some a
  unfolding move_to_front lookup
  value-move_to_front a at = rw (at, move_to_front) (ground arith)

  -- Moving an element to the front and writing it there.
  pub values-set_value_front :
      (a b : A)
      → value h l ≡ some a
      → values (set_value h b (move_to_front h l)).elems ≡ b ∷ values (remove h l).elems
  unfolding move_to_front set_value remove values insert lookup
  values-set_value_front a b at = rw (at, move_to_front) (ground arith)

  pub length-set_value : (a : A) → length (set_value h a l).elems ≡ length l.elems
  unfolding set_value
  length-set_value a = elim (Option-cases (value h l)) [
    | inl gone ↦ rw (gone, set_value) refl
    | inr (b, at) ↦ rw (at, set_value) (length-insert_present h a b l.elems at)
  ]

module _ {ℓ κ} {K : Type ℓ} {A : Type κ} ⦃e : Eq K⦄ (key : A → K) where
  -- The value with the key.
  unfoldable pub find : K → List A → Option A
  find k [] = none
  find k (a ∷ r) = if key a == k then some a else find k r

  -- The values with other keys.
  unfoldable pub without : K → List A → List A
  without k [] = []
  without k (a ∷ r) = if key a == k then without k r else a ∷ without k r

  pub find-without :
      (j k : K) (r : List A) → find j (without k r) ≡ (if k == j then none else find j r)
  unfolding find without
  find-without j k [] = ground arith
  find-without j k (a ∷ r) =
      ground (arith, find-without j k r, e.beq_iff k j, e.beq_iff (key a) k, e.beq_iff (key a) j)

  pub find-key : (k : K) (a : A) (r : List A) → find k r ≡ some a → key a ≡ k
  unfolding find
  find-key k a [] h = cc
  find-key k a (b ∷ r) h = ground (arith, find-key k a r, e.beq_iff (key b) k, e.beq_iff (key a) k)

  pub find-eq-none : (k : K) (r : Dict ℕ A) → handle_of key k r ≡ none → find k (values r) ≡ none
  unfolding find values handle_of
  find-eq-none k [] h = refl
  find-eq-none k ((j, b) ∷ r) h = ground (arith, find-eq-none k r)

  pub without_absent :
      (k : K) (r : Dict ℕ A) → handle_of key k r ≡ none → without k (values r) ≡ values r
  unfolding without values handle_of
  without_absent k [] h = refl
  without_absent k ((j, b) ∷ r) h = ground (arith, without_absent k r)

  pub value-eq-find :
      (k : K) (h : ℕ) (r : Dict ℕ A)
      → IsDistinct key r
      → handle_of key k r ≡ some h
      → lookup h r ≡ find k (values r)
  unfolding find values handle_of lookup
  value-eq-find k h [] d p = cc
  value-eq-find k h ((j, b) ∷ r) (fresh, once, d) p = elim (Bool-cases (key b == k)) [
    | inl here ↦ ground (arith, e.beq_iff (key b) k)
    | inr later ↦
        let (a, found, named) = value-handle_of key r k h d (ground arith) in
        ground (arith, value-eq-find k h r d)
  ]

  -- To delete an element by its handle is to drop the values with its key.
  pub values-delete :
      (h : ℕ) (a : A) (r : Dict ℕ A)
      → IsDistinct key r
      → lookup h r ≡ some a
      → values (delete h r) ≡ without (key a) (values r)
  unfolding values without lookup delete
  values-delete h a [] d p = cc
  values-delete h a ((j, b) ∷ r) (fresh, once, d) p = elim (Bool-cases (j == h)) [
    | inl same ↦
        ground (arith, delete_absent h r, without_absent (key a) r, e.beq_iff (key b) (key a))
    | inr other ↦
        ground
          (arith, values-delete h a r d, handle_of-value key r h a d, e.beq_iff (key b) (key a))
  ]

  pub value-last :
      (h : ℕ) (a : A) (r : Dict ℕ A)
      → IsDistinct key r
      → last? r ≡ some (h, a)
      → (lookup h r ≡ some a) × (delete h r ≡ drop_last r)
  unfolding lookup delete
  value-last h a [] d p = cc
  value-last h a ((j, b) ∷ []) d p = ground arith
  value-last h a ((j, b) ∷ (i, c) ∷ r) (fresh, once, d) p =
      let (found, dropped) = value-last h a ((i, c) ∷ r) d p in
      elim (Bool-cases (j == h)) [
        | inl same ↦
            let q = eq_of_== j h same in
            cc (sym found ∙ (ap (λ x. lookup x ((i, c) ∷ r)) (sym q) ∙ fresh))
        | inr other ↦ (rw (other) found, rw (other) (ap (◌∷◌ (j, b)) dropped))
      ]

  module _ {d : Dict K ℕ} {l : Linked A} (v : IsIndexed key d l) where
    -- Reading through the map finds what the list of values holds.
    pub read-eq-find : (k : K) → (lookup k d >>= λ h. value h l) ≡ find k (values l.elems)
    read-eq-find k = elim (Option-cases (lookup k d)) [
      | inl miss ↦ rw miss (sym (find-eq-none k l.elems (sym (v.position k) ∙ miss)))
      | inr (h, hit) ↦ rw hit (value-eq-find k h l.elems v.distinct (sym (v.position k) ∙ hit))
    ]

    pub read_hit :
        (k : K) (h : ℕ) → lookup k d ≡ some h → (a : A) × (value h l ≡ some a) × (key a ≡ k)
    read_hit k h hit = value-handle_of key l.elems k h v.distinct (sym (v.position k) ∙ hit)

    pub without_miss : (k : K) → lookup k d ≡ none → without k (values l.elems) ≡ values l.elems
    without_miss k miss = without_absent k l.elems (sym (v.position k) ∙ miss)

    module _ (h : ℕ) (a : A) (at : value h l ≡ some a) where
      pub values-remove : values (remove h l).elems ≡ without (key a) (values l.elems)
      unfolding remove
      values-remove = values-delete h a l.elems v.distinct at

      pub values-move_to_front :
          values (move_to_front h l).elems ≡ a ∷ without (key a) (values l.elems)
      unfolding move_to_front values delete remove
      values-move_to_front = rw (at, move_to_front) (ap (◌∷◌ a) values-remove)

      pub values-move_to_back :
          values (move_to_back h l).elems ≡ without (key a) (values l.elems) ++ a ∷ []
      unfolding move_to_back delete remove
      values-move_to_back =
          rw (at, move_to_back)
            (values-append (delete h l.elems) h a ∙ ap (λ r. r ++ a ∷ []) values-remove)

    pub back-value :
        (h : ℕ) (a : A)
        → back l ≡ some (h, a)
        → (value h l ≡ some a) × (values (remove h l).elems ≡ drop_last (values l.elems))
    unfolding remove
    back-value h a p =
        let (found, dropped) = value-last h a l.elems v.distinct p in
        (found, ap values dropped ∙ sym (drop_last-values l.elems))

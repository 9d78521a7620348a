-- ===== src/Std/Table/Laws.antt =====
-- What the operations on a table keep, and what they leave in it.
use netgoat.Prelude.{
  ◌≢◌, ℕ, zero, suc, ◌+◌, ◌≤◌, ◌<◌, ◌≡◌, refl, sym, ap, ◌∙◌, false, Bool-cases, inl, inr, none,
  some, Option-cases, [], ◌∷◌, if◌then◌else◌, ◌==◌, ==_refl, Eq, nat_eq, ltb, head?, length, arith,
}
use netgoat.Std.Dict.{Dict, lookup, delete, length-delete-lt, lookup-delete}
use netgoat.Std.Linked
use netgoat.Std.Linked.{Linked, value, front}
use netgoat.Std.Positions.{handle_of}
use netgoat.Std.Index.{IsIndexed, value_key, empty-IsIndexed, remove-IsIndexed}
use netgoat.Std.Index.View.{read_hit}
use netgoat.Std.Table.{Table, empty_table, oldest, find_entry, remove_at, drop_expired, drop_excess}
use netgoat.Std.Table.Timed.{IsTimed, IsTimed-lower, IsTimed-delete, IsTimed-value, IsTimed-upper}

lookup-head? {κ} :
    {A : Type κ} (h : ℕ) (a : A) (r : Dict ℕ A) → head? r ≡ some (h, a) → lookup h r ≡ some a
unfolding lookup
lookup-head? h a [] p = cc
lookup-head? h a ((j, b) ∷ r) p = ground arith

IsTimed-from {κ} :
    {A : Type κ} (expires : A → ℕ) (P : A → Type 0) (lo hi now h : ℕ) (a : A) (r : Dict ℕ A)
    → IsTimed expires P lo hi r
    → head? r ≡ some (h, a)
    → now < expires a
    → IsTimed expires P (now + 1) hi r
unfolding IsTimed
IsTimed-from expires P lo hi now h a [] t p q = tt
IsTimed-from expires P lo hi now h a ((j, b) ∷ r) (good, low, high, t) p q =
    let same : expires b ≡ expires a = ap expires (ground arith) in
    (good, omega (arith, same), high, t)

IsTimed-none {κ} :
    {A : Type κ} (expires : A → ℕ) (P : A → Type 0) (lo hi now : ℕ) (r : Dict ℕ A)
    → IsTimed expires P lo hi r
    → head? r ≡ none
    → IsTimed expires P (now + 1) hi r
unfolding IsTimed
IsTimed-none expires P lo hi now [] t p = tt
IsTimed-none expires P lo hi now ((j, b) ∷ r) t p = cc

no_lookup {ℓ κ} :
    {K : Type ℓ} {V : Type κ} ⦃e : Eq K⦄ (d : Dict K V)
    → ((k : K) → lookup k d ≡ none)
    → length d ≡ 0
unfolding lookup
no_lookup [] absent = refl
no_lookup ((k, v) ∷ d) absent = ground (arith, absent k, ==_refl k)

no_handle {ℓ κ} :
    {K : Type ℓ} {A : Type κ} ⦃e : Eq K⦄ (key : A → K) (k : K) (r : Dict ℕ A)
    → head? r ≡ none
    → handle_of key k r ≡ none
unfolding handle_of
no_handle key k [] p = refl
no_handle key k ((h, a) ∷ r) p = cc

module _ {ℓ κ} {K : Type ℓ} {A : Type κ} ⦃e : Eq K⦄ (key : A → K) (expires : A → ℕ)
    (P : A → Type 0) where
  -- The map leads to the entries, of which there are at most `limit`, and these stand in the order
  -- in which they expire.
  pub record IsKept (limit lo hi : ℕ) (t : Table K A) : Type (ℓ ⊔ κ) where
    pub indexed : IsIndexed key t.index t.order
    pub timed : IsTimed expires P lo hi t.order.elems
    pub small : length t.index ≤ limit

  module _ {limit lo hi : ℕ} {t : Table K A} (v : IsKept limit lo hi t) where
    -- An entry that the map leads to.
    pub find_entry-some :
        (k : K) (h : ℕ) (a : A)
        → find_entry key k t ≡ some (h, a)
        → (lookup k t.index ≡ some h) × (value h t.order ≡ some a) × (key a ≡ k)
    unfolding find_entry
    find_entry-some k h a found = elim (Option-cases (lookup k t.index)) [
      | inl miss ↦ ground (arith, found, miss)
      | inr (i, hit) ↦
          let (b, at, same) = read_hit key v.indexed k i hit in
          let q : find_entry key k t ≡ some (i, b) = rw (hit, at) refl in
          ground (arith, sym q ∙ found)
    ]

    pub find_entry_hit :
        (k : K) (h : ℕ)
        → lookup k t.index ≡ some h
        → (a : A) × (find_entry key k t ≡ some (h, a)) × (value h t.order ≡ some a) × (key a ≡ k)
    unfolding find_entry
    find_entry_hit k h hit =
        let (a, at, same) = read_hit key v.indexed k h hit in (a, rw (hit, at) refl, at, same)

    module _ (h : ℕ) (a : A) (at : value h t.order ≡ some a) where
      pub remove_at_found :
          remove_at key h a t
          ≡ record { index = delete (key a) t.index; order = Linked.remove h t.order }
      unfolding remove_at
      remove_at_found =
          rw (value_key key v.indexed h a at, remove_at) (rw (==_refl h, remove_at) refl)

      pub length-remove_at : length (remove_at key h a t).index < length t.index
      length-remove_at =
          rw remove_at_found (length-delete-lt (key a) h t.index (value_key key v.indexed h a at))

      pub remove_at-IsKept : IsKept limit lo hi (remove_at key h a t)
      unfolding Linked.remove
      remove_at-IsKept = rw remove_at_found (record {
        indexed = remove-IsIndexed key v.indexed h a at;
        timed = IsTimed-delete expires P lo hi h t.order.elems v.timed;
        small =
            omega
              (arith, v.small, length-delete-lt (key a) h t.index (value_key key v.indexed h a at));
      })

      pub lookup-remove_at :
          (k : K)
          → lookup k (remove_at key h a t).index ≡ (if key a == k then none else lookup k t.index)
      lookup-remove_at k = rw remove_at_found (lookup-delete (key a) k t.index)

    pub oldest-value : (h : ℕ) (a : A) → oldest t ≡ some (h, a) → value h t.order ≡ some a
    oldest-value h a = lookup-head? h a t.order.elems

    -- An entry with another handle stays when one is taken out.
    pub find-remove_other :
        (i : ℕ) (b : A)
        → value i t.order ≡ some b
        → (k : K) (h : ℕ) (a : A) → find_entry key k t ≡ some (h, a)
        → i ≢ h
        → find_entry key k (remove_at key i b t) ≡ some (h, a)
    unfolding find_entry Linked.remove
    find-remove_other i b at k h a found other =
        let (hit, here, same) = find_entry-some k h a found in
        let apart : (key b == k) ≡ false =
          ground (arith, value_key key v.indexed i b at, hit, e.beq_iff (key b) k) in
        rw (remove_at_found i b at) (
          ground (
            arith,
            lookup-delete (key b) k t.index,
            apart,
            hit,
            here,
            lookup-delete i h t.order.elems,
          ))

    no_keys : oldest t ≡ none → length t.index ≡ 0
    no_keys gone =
        no_lookup t.index (λ k. v.indexed.position k ∙ no_handle key k t.order.elems gone)

    expired_other :
        (now i : ℕ) (b : A)
        → value i t.order ≡ some b
        → (k : K) (h : ℕ) (a : A) → find_entry key k t ≡ some (h, a)
        → ltb now (expires b) ≡ false
        → now < expires a
        → i ≢ h
    expired_other now i b at k h a found old live same =
        let (hit, here, named) = find_entry-some k h a found in
        let e : b ≡ a = ground (arith, at, here, same) in
        let q : expires b ≡ expires a = ap expires e in ground arith

    pub newer :
        (now h : ℕ) (a : A) → oldest t ≡ some (h, a) → now < expires a → IsKept limit (now + 1) hi t
    newer now h a p q = record {
      indexed = v.indexed;
      timed = IsTimed-from expires P lo hi now h a t.order.elems v.timed p q;
      small = v.small;
    }

    pub no_oldest : (now : ℕ) → oldest t ≡ none → IsKept limit (now + 1) hi t
    no_oldest now p = record {
      indexed = v.indexed;
      timed = IsTimed-none expires P lo hi now t.order.elems v.timed p;
      small = v.small;
    }

  pub drop_expired-IsKept :
      {limit lo hi : ℕ} (now fuel : ℕ) (t : Table K A)
      → IsKept limit lo hi t
      → IsKept limit lo hi (drop_expired key expires now fuel t)
  unfolding drop_expired
  drop_expired-IsKept now zero t v = v
  drop_expired-IsKept now (suc fuel) t v = elim (Option-cases (oldest t)) [
    | inl gone ↦ rw (gone, drop_expired) v
    | inr ((h, a), p) ↦ elim (Bool-cases (ltb now (expires a))) [
      | inl live ↦ rw (p, live, drop_expired) v
      | inr old ↦
          rw (p, old, drop_expired)
            (drop_expired-IsKept now fuel _ (remove_at-IsKept v h a (oldest-value v h a p)))
    ]
  ]

  -- With more fuel than there are keys, what is left has not expired.
  pub drop_expired_live :
      {limit lo hi : ℕ} (now fuel : ℕ) (t : Table K A)
      → IsKept limit lo hi t
      → length t.index < fuel
      → IsKept limit (now + 1) hi (drop_expired key expires now fuel t)
  unfolding drop_expired
  drop_expired_live now zero t v q = absurd (omega arith)
  drop_expired_live now (suc fuel) t v q = elim (Option-cases (oldest t)) [
    | inl gone ↦ rw (gone, drop_expired) (no_oldest v now gone)
    | inr ((h, a), p) ↦ elim (Bool-cases (ltb now (expires a))) [
      | inl live ↦ rw (p, live, drop_expired) (newer v now h a p (ground arith))
      | inr old ↦
          let at = oldest-value v h a p in
          rw (p, old, drop_expired)
            (drop_expired_live now fuel _ (remove_at-IsKept v h a at)
              (omega (arith, length-remove_at v h a at)))
    ]
  ]

  -- A key is there after the clean-up only if it was there, and one that has not expired stays.
  pub drop_expired_keeps :
      {limit lo hi : ℕ} (now fuel : ℕ) (t : Table K A)
      → IsKept limit lo hi t
      → (k : K) (h : ℕ) (a : A) → find_entry key k t ≡ some (h, a)
      → now < expires a
      → find_entry key k (drop_expired key expires now fuel t) ≡ some (h, a)
  unfolding drop_expired
  drop_expired_keeps now zero t v k h a found live = found
  drop_expired_keeps now (suc fuel) t v k h a found live = elim (Option-cases (oldest t)) [
    | inl gone ↦ rw (gone, drop_expired) found
    | inr ((i, b), p) ↦ elim (Bool-cases (ltb now (expires b))) [
      | inl young ↦ rw (p, young, drop_expired) found
      | inr old ↦
          rw (p, old, drop_expired)
            (drop_expired_keeps now fuel _ (remove_at-IsKept v i b (oldest-value v i b p)) k h a
              (find-remove_other v i b (oldest-value v i b p) k h a found
                (expired_other v now i b (oldest-value v i b p) k h a found old live))
              live)
    ]
  ]

  pub drop_excess-IsKept :
      {limit lo hi : ℕ} (bound fuel : ℕ) (t : Table K A)
      → IsKept limit lo hi t
      → IsKept limit lo hi (drop_excess key bound fuel t)
  unfolding drop_excess
  drop_excess-IsKept bound zero t v = v
  drop_excess-IsKept bound (suc fuel) t v = elim (Bool-cases (ltb (length t.index) bound)) [
    | inl small ↦ rw (small, drop_excess) v
    | inr full ↦ elim (Option-cases (oldest t)) [
      | inl gone ↦ rw (full, gone, drop_excess) v
      | inr ((h, a), p) ↦
          rw (full, p, drop_excess)
            (drop_excess-IsKept bound fuel _ (remove_at-IsKept v h a (oldest-value v h a p)))
    ]
  ]

  -- With more fuel than there are keys, fewer than `bound` are left.
  pub length-drop_excess :
      {limit lo hi : ℕ} (bound fuel : ℕ) (t : Table K A)
      → 0 < bound
      → IsKept limit lo hi t
      → length t.index < fuel
      → length (drop_excess key bound fuel t).index < bound
  unfolding drop_excess
  length-drop_excess bound zero t pos v q = absurd (omega arith)
  length-drop_excess bound (suc fuel) t pos v q = elim (Bool-cases (ltb (length t.index) bound)) [
    | inl small ↦ rw (small, drop_excess) (ground arith)
    | inr full ↦ elim (Option-cases (oldest t)) [
      | inl gone ↦ absurd (ground (arith, no_keys v gone, full))
      | inr ((h, a), p) ↦
          let at = oldest-value v h a p in
          rw (full, p, drop_excess)
            (length-drop_excess bound fuel _ pos (remove_at-IsKept v h a at)
              (omega (arith, length-remove_at v h a at)))
    ]
  ]

  -- A bound on the expiry may be raised.
  pub IsKept-later :
      {limit lo hi : ℕ} (hi' : ℕ) (t : Table K A)
      → hi ≤ hi'
      → IsKept limit lo hi t
      → IsKept limit lo hi' t
  IsKept-later {limit} {lo} {hi} hi' t q v = record {
    indexed = v.indexed;
    timed = IsTimed-upper expires P lo hi hi' t.order.elems q v.timed;
    small = v.small;
  }

  pub IsKept-lower :
      {limit lo hi : ℕ} (lo' : ℕ) (t : Table K A)
      → lo' ≤ lo
      → IsKept limit lo hi t
      → IsKept limit lo' hi t
  IsKept-lower {limit} {lo} {hi} lo' t q v = record {
    indexed = v.indexed;
    timed = IsTimed-lower expires P lo lo' hi t.order.elems q v.timed;
    small = v.small;
  }

  pub find_entry_timed :
      {limit lo hi : ℕ} (t : Table K A)
      → IsKept limit lo hi t
      → (k : K) (h : ℕ) (a : A) → find_entry key k t ≡ some (h, a)
      → P a × (lo ≤ expires a) × (expires a ≤ hi)
  find_entry_timed {limit} {lo} {hi} t v k h a found =
      let (hit, at, same) = find_entry-some v k h a found in
      IsTimed-value expires P lo hi h a t.order.elems at v.timed

  pub empty-IsKept : (limit lo hi : ℕ) → IsKept limit lo hi empty_table
  unfolding IsTimed
  empty-IsKept limit lo hi = record {
    indexed = empty-IsIndexed key;
    timed = tt;
    small = omega arith;
  }

  -- A key that is absent stays absent.
  pub drop_expired_absent :
      {limit lo hi : ℕ} (now fuel : ℕ) (t : Table K A)
      → IsKept limit lo hi t
      → (k : K) → lookup k t.index ≡ none
      → lookup k (drop_expired key expires now fuel t).index ≡ none
  unfolding drop_expired
  drop_expired_absent now zero t v k p = p
  drop_expired_absent now (suc fuel) t v k p = elim (Option-cases (oldest t)) [
    | inl gone ↦ rw (gone, drop_expired) p
    | inr ((i, b), q) ↦ elim (Bool-cases (ltb now (expires b))) [
      | inl young ↦ rw (q, young, drop_expired) p
      | inr old ↦
          let at = oldest-value v i b q in
          rw (q, old, drop_expired)
            (drop_expired_absent now fuel _ (remove_at-IsKept v i b at) k
              (ground (arith, lookup-remove_at v i b at k)))
    ]
  ]

  pub drop_excess_absent :
      {limit lo hi : ℕ} (bound fuel : ℕ) (t : Table K A)
      → IsKept limit lo hi t
      → (k : K) → lookup k t.index ≡ none
      → lookup k (drop_excess key bound fuel t).index ≡ none
  unfolding drop_excess
  drop_excess_absent bound zero t v k p = p
  drop_excess_absent bound (suc fuel) t v k p = elim (Bool-cases (ltb (length t.index) bound)) [
    | inl small ↦ rw (small, drop_excess) p
    | inr full ↦ elim (Option-cases (oldest t)) [
      | inl gone ↦ rw (full, gone, drop_excess) p
      | inr ((i, b), q) ↦
          let at = oldest-value v i b q in
          rw (full, q, drop_excess)
            (drop_excess_absent bound fuel _ (remove_at-IsKept v i b at) k
              (ground (arith, lookup-remove_at v i b at k)))
    ]
  ]

  pub find_entry-none :
      {limit lo hi : ℕ} (t : Table K A)
      → IsKept limit lo hi t
      → (k : K) → find_entry key k t ≡ none
      → lookup k t.index ≡ none
  find_entry-none t v k p = elim (Option-cases (lookup k t.index)) [
    | inl miss ↦ miss
    | inr (h, hit) ↦ let (a, found, at, same) = find_entry_hit v k h hit in cc
  ]

  pub find_entry_absent :
      (t : Table K A) (k : K) → lookup k t.index ≡ none → find_entry key k t ≡ none
  unfolding find_entry
  find_entry_absent t k p = rw p refl

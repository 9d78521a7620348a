-- ===== src/Std/Table/Live.antt =====
-- What a look-up finds after the expired entries have been taken out.
use netgoat.Prelude.{
  ℕ, zero, suc, ◌<◌, ◌≡◌, ap, ◌∙◌, false, Bool-cases, inl, inr, Option, none, some, Option-cases,
  if◌then◌else◌, Eq, nat_eq, ltb, length, arith,
}
use netgoat.Std.Dict.{lookup, lookup-delete}
use netgoat.Std.Linked
use netgoat.Std.Linked.{value}
use netgoat.Std.Table.{Table, oldest, find_entry, remove_at, drop_expired}
use netgoat.Std.Table.Laws.{
  IsKept, find_entry-some, find_entry_hit, remove_at_found, remove_at-IsKept, lookup-remove_at,
  oldest-value, drop_expired_keeps, drop_expired_live, drop_expired_absent, find_entry_timed,
  find_entry-none, find_entry_absent,
}

-- The entry, if it expires after `now`.
unfoldable pub if_live {κ} : {A : Type κ} → (A → ℕ) → ℕ → Option (ℕ × A) → Option (ℕ × A)
if_live expires now none = none
if_live expires now (some (h, a)) = if ltb now (expires a) then some (h, a) else none

module _ {ℓ κ} {K : Type ℓ} {A : Type κ} ⦃e : Eq K⦄ (key : A → K) (expires : A → ℕ)
    (P : A → Type 0) where
  pub find-remove_at :
      {limit lo hi : ℕ} (t : Table K A) (v : IsKept key expires P limit lo hi t) (i : ℕ) (b : A)
      → value i t.order ≡ some b
      → (k : K) (h : ℕ) (a : A) → find_entry key k (remove_at key i b t) ≡ some (h, a)
      → find_entry key k t ≡ some (h, a)
  unfolding find_entry Linked.remove
  find-remove_at t v i b at k h a found =
      let w = remove_at-IsKept key expires P v i b at in
      let (hit, here, same) = find_entry-some key expires P w k h a found in
      let hit' : lookup k t.index ≡ some h =
        ground (arith, lookup-remove_at key expires P v i b at k) in
      let (a', found', at', same') = find_entry_hit key expires P v k h hit' in
      let here' = ap (λ x. value h x.order) (remove_at_found key expires P v i b at) in
      let both : a' ≡ a = ground (arith, here, here', at', lookup-delete i h t.order.elems) in
      found' ∙ ap (λ x. some (h, x)) both

  drop_expired_found :
      {limit lo hi : ℕ} (now fuel : ℕ) (t : Table K A)
      → IsKept key expires P limit lo hi t
      → (k : K) (h : ℕ) (a : A)
      → find_entry key k (drop_expired key expires now fuel t) ≡ some (h, a)
      → find_entry key k t ≡ some (h, a)
  unfolding drop_expired
  drop_expired_found now zero t v k h a found = found
  drop_expired_found now (suc fuel) t v k h a found = elim (Option-cases (oldest t)) [
    | inl gone ↦ rw (gone, drop_expired) at found
    | inr ((i, b), q) ↦ elim (Bool-cases (ltb now (expires b))) [
      | inl young ↦ rw (q, young, drop_expired) at found
      | inr old ↦
          let at = oldest-value key expires P v i b q in
          find-remove_at t v i b at k h a (
            drop_expired_found now fuel _ (remove_at-IsKept key expires P v i b at) k h a
              (rw (q, old, drop_expired) at found))
    ]
  ]

  drop_expired_gone :
      {limit lo hi : ℕ} (now fuel : ℕ) (t : Table K A)
      → IsKept key expires P limit lo hi t
      → length t.index < fuel
      → (k : K) (h : ℕ) (a : A) → find_entry key k t ≡ some (h, a)
      → ltb now (expires a) ≡ false
      → find_entry key k (drop_expired key expires now fuel t) ≡ none
  drop_expired_gone now fuel t v q k h a hit old =
      elim (Option-cases (find_entry key k (drop_expired key expires now fuel t))) [
        | inl gone ↦ gone
        | inr ((i, b), found) ↦
            let w = drop_expired_live key expires P now fuel t v q in
            let (_, young, _) = find_entry_timed key expires P _ w k i b found in
            let was = drop_expired_found now fuel t v k i b found in
            let both : b ≡ a = ground (arith, was, hit) in
            let time = ap expires both in absurd (ground arith)
      ]

  pub find-drop_expired :
      {limit lo hi : ℕ} (now fuel : ℕ) (t : Table K A)
      → IsKept key expires P limit lo hi t
      → length t.index < fuel
      → (k : K)
      → find_entry key k (drop_expired key expires now fuel t)
        ≡ if_live expires now (find_entry key k t)
  unfolding if_live
  find-drop_expired now fuel t v q k = elim (Option-cases (find_entry key k t)) [
    | inl miss ↦ rw miss (
        find_entry_absent key expires P _ k (
          drop_expired_absent key expires P now fuel t v k
            (find_entry-none key expires P t v k miss)))
    | inr ((h, a), hit) ↦ elim (Bool-cases (ltb now (expires a))) [
      | inl live ↦
          rw hit (rw live (drop_expired_keeps key expires P now fuel t v k h a hit (ground arith)))
      | inr old ↦ rw hit (rw old (drop_expired_gone now fuel t v q k h a hit old))
    ]
  ]

-- ===== src/Std/Table.antt =====
-- A map together with the list of its entries in the order in which they expire, the oldest in
-- front: the shape of both tables of the challenge store.
pub mod Timed
pub mod Laws
pub mod Writes
pub mod Live
use netgoat.Prelude.{
  true, false, ltb, ℕ, zero, suc, ◌+◌, ◌≤◌, ◌<◌, ◌≡◌, refl, sym, ap, ◌∙◌, Bool, Option, none, some,
  List, [], ◌∷◌, ◌++◌, if◌then◌else◌, ◌==◌, Eq, nat_eq, ◌>>=◌, head?, length,
}
use netgoat.Std.Dict.{Dict, lookup, insert, delete}
use netgoat.Std.Linked
use netgoat.Std.Linked.{Linked, value, front}

pub record Table {ℓ κ} (K : Type ℓ) (A : Type κ) : Type (ℓ ⊔ κ) where
  pub index : Dict K ℕ
  pub order : Linked A

module _ {ℓ κ} {K : Type ℓ} {A : Type κ} where
  abbrev pub empty_table : Table K A
  empty_table = record { index = []; order = Linked.empty }

  abbrev pub oldest : Table K A → Option (ℕ × A)
  oldest t = front t.order

module _ {ℓ κ} {K : Type ℓ} {A : Type κ} ⦃e : Eq K⦄ (key : A → K) where
  unfoldable pub find_entry : K → Table K A → Option (ℕ × A)
  find_entry k t = lookup k t.index >>= λ h. value h t.order >>= λ a. some (h, a)

  -- An entry is taken out only if the map still leads to it.
  unfoldable pub remove_at : ℕ → A → Table K A → Table K A
  remove_at h a t = elim (lookup (key a) t.index) [
    | none ↦ t
    | some h' ↦
        if h' == h
        then record { index = delete (key a) t.index; order = Linked.remove h t.order }
        else t
  ]

  unfoldable pub append_entry : A → Table K A → Table K A
  append_entry a t = record {
    index = insert (key a) t.order.next t.index;
    order = Linked.push_back a t.order;
  }

  -- Entries are taken out from the front while they have expired.
  unfoldable pub drop_expired : (A → ℕ) → ℕ → ℕ → Table K A → Table K A
  drop_expired expires now zero t = t
  drop_expired expires now (suc fuel) t = elim (oldest t) [
    | none ↦ t
    | some (h, a) ↦ elim (ltb now (expires a)) [
      | true ↦ t
      | false ↦ drop_expired expires now fuel (remove_at h a t)
    ]
  ]

  -- Entries are taken out from the front until fewer than `limit` are left.
  unfoldable pub drop_excess : ℕ → ℕ → Table K A → Table K A
  drop_excess limit zero t = t
  drop_excess limit (suc fuel) t = elim (ltb (length t.index) limit) [
    | true ↦ t
    | false ↦ elim (oldest t) [ none ↦ t | some (h, a) ↦ drop_excess limit fuel (remove_at h a t) ]
  ]

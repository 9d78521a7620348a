-- ===== src/Std/Table/Writes.antt =====
-- Entries written to a table: a new one at the back, one changed where it stands, and one that is
-- given more time and moves to the back.
use netgoat.Prelude.{
  ℕ, ◌≤◌, ◌<◌, ◌≡◌, refl, none, some, [], ◌∷◌, ◌++◌, ==_refl, Eq, nat_eq, length, arith,
}
use netgoat.Std.Dict.{Dict, lookup, insert, delete, length-insert-le, lookup-insert, lookup-delete}
use netgoat.Std.Linked
use netgoat.Std.Linked.{Linked, value, set_value, move_to_back, push_back}
use netgoat.Std.Positions.{lookup-append}
use netgoat.Std.Index.{
  next_absent, value_key, push_back-IsIndexed, set_value-IsIndexed, move_to_back-IsIndexed,
}
use netgoat.Std.Table.{Table, find_entry, remove_at, append_entry}
use netgoat.Std.Table.Timed.{IsTimed-delete, IsTimed-append, IsTimed-insert}
use netgoat.Std.Table.Laws.{IsKept}

insert-append {κ} :
    {A : Type κ} (h : ℕ) (a b : A) (r : Dict ℕ A)
    → lookup h r ≡ none
    → insert h b (r ++ (h, a) ∷ []) ≡ r ++ (h, b) ∷ []
unfolding insert lookup
insert-append h a b [] p = ground arith
insert-append h a b ((j, c) ∷ r) p = ground (arith, insert-append h a b r)

lookup-delete_self {κ} : {A : Type κ} (h : ℕ) (r : Dict ℕ A) → lookup h (delete h r) ≡ none
lookup-delete_self h r = ground (arith, lookup-delete h h r)

value-move_to_back {κ} :
    {A : Type κ} (h : ℕ) (a : A) (l : Linked A)
    → value h l ≡ some a
    → value h (move_to_back h l) ≡ some a
unfolding move_to_back
value-move_to_back h a l at =
    rw (at, move_to_back)
      (ground (arith, lookup-append h h a (delete h l.elems) (lookup-delete_self h l.elems)))

set_value-move_to_back {κ} :
    {A : Type κ} (h : ℕ) (a b : A) (l : Linked A)
    → value h l ≡ some a
    → set_value h b (move_to_back h l)
      ≡ record { elems = delete h l.elems ++ (h, b) ∷ []; next = l.next }
unfolding set_value move_to_back
set_value-move_to_back h a b l at =
    let gone = lookup-delete_self h l.elems in
    rw (value-move_to_back h a l at, set_value)
      (rw (at, move_to_back) (rw (insert-append h a b (delete h l.elems) gone) refl))

module _ {ℓ κ} {K : Type ℓ} {A : Type κ} ⦃e : Eq K⦄ (key : A → K) (expires : A → ℕ)
    (P : A → Type 0) where
  module _ {limit lo hi : ℕ} {t : Table K A} (v : IsKept key expires P limit lo hi t) where
    pub append_entry-IsKept :
        (a : A)
        → lookup (key a) t.index ≡ none
        → length t.index < limit
        → lo ≤ expires a
        → hi ≤ expires a
        → P a
        → IsKept key expires P limit lo (expires a) (append_entry key a t)
    unfolding append_entry push_back
    append_entry-IsKept a new room low high good = record {
      indexed = push_back-IsIndexed key v.indexed a new;
      timed = IsTimed-append expires P lo hi t.order.next a t.order.elems low high good v.timed;
      small = omega (arith, length-insert-le (key a) t.order.next t.index);
    }

    pub find-append_entry :
        (a : A)
        → lookup (key a) t.index ≡ none
        → find_entry key (key a) (append_entry key a t) ≡ some (t.order.next, a)
    unfolding append_entry push_back find_entry
    find-append_entry a new = ground (
      arith,
      lookup-insert (key a) (key a) t.order.next t.index,
      ==_refl (key a),
      lookup-append t.order.next t.order.next a t.order.elems (next_absent key v.indexed),
    )

    module _ (h : ℕ) (a b : A) (at : value h t.order ≡ some a) (same : key b ≡ key a) where
      pub set_value-IsKept :
          expires b ≡ expires a
          → P b
          → IsKept key expires P limit lo hi (record t { order = set_value h b t.order })
      unfolding set_value
      set_value-IsKept time good = record {
        indexed = set_value-IsIndexed key v.indexed h a at b same;
        timed =
            rw (at, set_value)
              (IsTimed-insert expires P lo hi h a b t.order.elems at time good v.timed);
        small = v.small;
      }

      pub value-set_value : value h (set_value h b t.order) ≡ some b
      unfolding set_value
      value-set_value = rw (at, set_value) (ground (arith, lookup-insert h h b t.order.elems))

      pub refresh-IsKept :
          lo ≤ expires b
          → hi ≤ expires b
          → P b
          → IsKept key expires P limit lo
              (expires b)
              (record t { order = set_value h b (move_to_back h t.order) })
      refresh-IsKept low high good =
          let moved = move_to_back-IsIndexed key v.indexed h in
          record {
            indexed = set_value-IsIndexed key moved h a (value-move_to_back h a t.order at) b same;
            timed = rw (set_value-move_to_back h a b t.order at) (
                IsTimed-append expires P lo hi h b (delete h t.order.elems) low high good
                  (IsTimed-delete expires P lo hi h t.order.elems v.timed));
            small = v.small;
          }

      pub find-refresh :
          find_entry key (key b) (record t { order = set_value h b (move_to_back h t.order) })
          ≡ some (h, b)
      unfolding find_entry
      find-refresh =
          let hit : lookup (key b) t.index ≡ some h = rw same (value_key key v.indexed h a at) in
          rw (hit, find_entry)
            (rw (set_value-move_to_back h a b t.order at) (
              ground (
                arith,
                lookup-append h h b (delete h t.order.elems) (lookup-delete_self h t.order.elems),
              )))

delete-insert {κ} :
    {A : Type κ} (h : ℕ) (a b : A) (r : Dict ℕ A)
    → lookup h r ≡ some a
    → delete h (insert h b r) ≡ delete h r
unfolding insert delete lookup
delete-insert h a b [] at = cc
delete-insert h a b ((j, c) ∷ r) at = ground (arith, delete-insert h a b r)

module _ {ℓ κ} {K : Type ℓ} {A : Type κ} ⦃e : Eq K⦄ (key : A → K) where
  -- What is taken out does not depend on what was written there before.
  pub remove_at-set_value :
      (h : ℕ) (a b : A) (t : Table K A)
      → lookup (key a) t.index ≡ some h
      → value h t.order ≡ some a
      → key b ≡ key a
      → remove_at key h b (record t { order = set_value h b t.order }) ≡ remove_at key h a t
  unfolding remove_at set_value Linked.remove
  remove_at-set_value h a b t hit at same =
      rw (same, remove_at)
        (rw (hit, remove_at)
          (rw (==_refl h, remove_at)
            (rw (at, set_value) (rw (delete-insert h a b t.order.elems at) (rw same refl)))))

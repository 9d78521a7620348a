-- ===== src/Std/Linked.antt =====
-- Go's `container/list`. An element is named by a handle, the model of its `*list.Element`: the
-- elements stand from front to back, and `next` is a handle that no element has had.
use netgoat.Prelude.{ℕ, ◌+◌, Option, none, some, [], ◌∷◌, ◌++◌, last?, head?, nat_eq}
use netgoat.Std.Dict.{Dict, lookup, insert, delete}

pub record Linked {ℓ} (A : Type ℓ) : Type ℓ where
  pub elems : Dict ℕ A
  pub next : ℕ

module _ {ℓ} {A : Type ℓ} where
  abbrev pub empty : Linked A
  empty = record { elems = []; next = 0 }

  abbrev pub value : ℕ → Linked A → Option A
  value h l = lookup h l.elems

  unfoldable pub push_front : A → Linked A → Linked A
  push_front a l = record { elems = (l.next, a) ∷ l.elems; next = l.next + 1 }

  unfoldable pub push_back : A → Linked A → Linked A
  push_back a l = record { elems = l.elems ++ (l.next, a) ∷ []; next = l.next + 1 }

  unfoldable pub remove : ℕ → Linked A → Linked A
  remove h l = record l { elems = delete h l.elems }

  unfoldable pub move_to_front : ℕ → Linked A → Linked A
  move_to_front h l = elim (lookup h l.elems) [
    | none ↦ l
    | some a ↦ record l { elems = (h, a) ∷ delete h l.elems }
  ]

  unfoldable pub move_to_back : ℕ → Linked A → Linked A
  move_to_back h l = elim (lookup h l.elems) [
    | none ↦ l
    | some a ↦ record l { elems = delete h l.elems ++ (h, a) ∷ [] }
  ]

  -- `ele.Value = a`
  unfoldable pub set_value : ℕ → A → Linked A → Linked A
  set_value h a l = elim (lookup h l.elems) [
    | none ↦ l
    | some _ ↦ record l { elems = insert h a l.elems }
  ]

  abbrev pub front : Linked A → Option (ℕ × A)
  front l = head? l.elems

  abbrev pub back : Linked A → Option (ℕ × A)
  back l = last? l.elems

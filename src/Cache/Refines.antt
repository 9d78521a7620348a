-- ===== src/Cache/Refines.antt =====
-- The store keeps its map and its list in step, stays within its capacity, and implements the
-- plain list of Cache/Lru.
use netgoat.Prelude.{
  ℕ, suc, ◌≤◌, ◌<◌, ◌≡◌, refl, sym, ap, ◌∙◌, none, some, List, [], ◌∷◌, length, arith, ltb, ℤ,
  or_default_pos, Bool-cases, Option-cases, inl, inr, take_of_length-le, take-eq-drop_last,
  last?_total, drop_last, nat_eq,
}
use netgoat.Std.Dict.{lookup, length-delete-lt}
use netgoat.Std.Linked
use netgoat.Std.Linked.{Linked, value, back}
use netgoat.Std.Index.{
  IsIndexed, empty-IsIndexed, push_front-IsIndexed, remove-IsIndexed, move_to_front-IsIndexed,
  set_value-IsIndexed,
}
use netgoat.Std.Index.View.{
  values, find, without, read-eq-find, read_hit, without_miss, values-remove, back-value,
  values-move_to_front, length-values, values-nil, values-push_front, value-move_to_front,
  values-set_value_front, length-move_to_front-le, length-set_value,
}
use netgoat.Std.Text.{Bytes, bytes_eq}
use netgoat.Cache.Store.{
  Entry, Store, new_store, push_entry, add_entry, replace_entry, remove_element, remove_oldest, get,
  store_entry,
}
use netgoat.Cache.Lru.{key_of, read, write, limits_of}

pub record IsValid (s : Store) : Type 0 where
  pub indexed : IsIndexed key_of s.items s.ll
  pub bounded : length s.ll.elems ≤ s.max_entries
  pub room : 0 < s.max_entries

-- The entries from the most to the least recently used.
abbrev pub contents : Store → List Entry
contents s = values s.ll.elems

pub new_store-IsValid :
    (ttl max_entries max_body : ℤ) → IsValid (new_store ttl max_entries max_body)
unfolding new_store
new_store-IsValid ttl max_entries max_body = record {
  indexed = empty-IsIndexed key_of;
  bounded = omega arith;
  room = or_default_pos max_entries 1024 (omega arith);
}

pub contents-new_store :
    (ttl max_entries max_body : ℤ) → contents (new_store ttl max_entries max_body) ≡ []
unfolding new_store
contents-new_store ttl max_entries max_body = values-nil

module _ (s : Store) (v : IsIndexed key_of s.items s.ll) where
  -- What removing an element that is in the list does.
  remove_element_lem :
      (ele : ℕ) (ent : Entry)
      → value ele s.ll ≡ some ent
      → IsIndexed key_of (remove_element ele s).items (remove_element ele s).ll
        × (contents (remove_element ele s) ≡ without key_of ent.key (contents s))
        × (length (remove_element ele s).ll.elems < length s.ll.elems)
        × ((remove_element ele s).max_entries ≡ s.max_entries)
  unfolding remove_element Linked.remove
  remove_element_lem ele ent at =
      rw (at, remove_element)
        ((
          remove-IsIndexed key_of v ele ent at,
          values-remove key_of v ele ent at,
          length-delete-lt ele ent s.ll.elems at,
          refl,
        ))

  remove_element-ll :
      (ele : ℕ) (ent : Entry)
      → value ele s.ll ≡ some ent
      → (remove_element ele s).ll ≡ Linked.remove ele s.ll
  unfolding remove_element
  remove_element-ll ele ent at = rw (at, remove_element) refl

  remove_oldest_lem :
      (ele : ℕ) (ent : Entry)
      → back s.ll ≡ some (ele, ent)
      → IsIndexed key_of (remove_oldest s).items (remove_oldest s).ll
        × (contents (remove_oldest s) ≡ drop_last (contents s))
        × (length (remove_oldest s).ll.elems < length s.ll.elems)
        × ((remove_oldest s).max_entries ≡ s.max_entries)
  unfolding remove_oldest
  remove_oldest_lem ele ent last =
      let (at, dropped) = back-value key_of v ele ent last in
      let (indexed, _, shorter, same) = remove_element_lem ele ent at in
      rw (last, remove_oldest) ((indexed, rw (remove_element-ll ele ent at) dropped, shorter, same))

  find_miss : (key : Bytes) → lookup key s.items ≡ none → find key_of key (contents s) ≡ none
  find_miss key miss = sym (read-eq-find key_of v key) ∙ rw miss refl

  find_hit :
      (key : Bytes) (ele : ℕ) (ent : Entry)
      → lookup key s.items ≡ some ele
      → value ele s.ll ≡ some ent
      → find key_of key (contents s) ≡ some ent
  find_hit key ele ent hit at = sym (read-eq-find key_of v key) ∙ rw hit at

-- A read keeps the store valid, returns what the contract returns, and leaves the entries that the
-- contract leaves, in its order.
pub get-read :
    (now : ℕ) (key : Bytes) {s : Store}
    → IsValid s
    → IsValid (get now key s).0
      × (contents (get now key s).0 ≡ (read now key (contents s)).0)
      × ((get now key s).1 ≡ (read now key (contents s)).1)
unfolding get read
get-read now key {s} v = elim (Option-cases (lookup key s.items)) [
  | inl miss ↦ rw (miss, get) (rw (find_miss s v.indexed key miss, read) ((v, refl, refl)))
  | inr (ele, hit) ↦
      let (ent, at, named) = read_hit key_of v.indexed key ele hit in
      let found = find_hit s v.indexed key ele ent hit at in
      elim (Bool-cases (ltb ent.expires now)) [
        | inl stale ↦
            let (indexed, dropped, shorter, same) = remove_element_lem s v.indexed ele ent at in
            rw (hit, get)
              (rw (at, get)
                (rw (found, read)
                  (rw (stale) (
                    (
                      record {
                        indexed = indexed;
                        bounded = omega (arith, v.bounded, shorter);
                        room = rw same v.room;
                      },
                      rw (← named) dropped,
                      refl,
                    )))))
        | inr fresh ↦
            rw (hit, get)
              (rw (at, get)
                (rw (found, read)
                  (rw (fresh) (
                    (
                      record {
                        indexed = move_to_front-IsIndexed key_of v.indexed ele;
                        bounded = omega (arith, v.bounded, length-move_to_front-le ele s.ll);
                        room = v.room;
                      },
                      rw (← named) (values-move_to_front key_of v.indexed ele ent at),
                      refl,
                    )))))
      ]
]

module _ (ent : Entry) (s : Store) (v : IsValid s) where
  write_fits :
      length (ent ∷ without key_of ent.key (contents s)) ≤ s.max_entries
      → write s.max_entries ent (contents s) ≡ ent ∷ without key_of ent.key (contents s)
  unfolding write
  write_fits h = take_of_length-le _ _ h

  write_full :
      length (ent ∷ without key_of ent.key (contents s)) ≡ suc s.max_entries
      → write s.max_entries ent (contents s) ≡ drop_last (ent ∷ without key_of ent.key (contents s))
  unfolding write
  write_full h = take-eq-drop_last _ _ h

  module _ (miss : lookup ent.key s.items ≡ none) where
    push_entry-IsIndexed : IsIndexed key_of (push_entry ent s).items (push_entry ent s).ll
    unfolding push_entry
    push_entry-IsIndexed = push_front-IsIndexed key_of v.indexed ent miss

    contents-push_entry : contents (push_entry ent s) ≡ ent ∷ without key_of ent.key (contents s)
    unfolding push_entry
    contents-push_entry =
        values-push_front s.ll ent ∙ ap (◌∷◌ ent) (sym (without_miss key_of v.indexed ent.key miss))

    length-push_entry : length (push_entry ent s).ll.elems ≡ suc (length s.ll.elems)
    unfolding push_entry Linked.push_front
    length-push_entry = refl

    max_entries-push_entry : (push_entry ent s).max_entries ≡ s.max_entries
    unfolding push_entry
    max_entries-push_entry = refl

    length-contents : suc (length s.ll.elems) ≡ length (ent ∷ without key_of ent.key (contents s))
    length-contents =
        sym length-push_entry
        ∙ (sym (length-values (push_entry ent s).ll.elems) ∙ ap length contents-push_entry)

    add_entry_lem :
        IsValid (add_entry ent s)
        × (contents (add_entry ent s) ≡ write s.max_entries ent (contents s))
    unfolding add_entry Linked.push_front
    add_entry_lem = elim (Bool-cases (ltb s.max_entries (length (push_entry ent s).ll.elems))) [
      | inl over ↦
          let ((ele, old), last) = last?_total (s.ll.next, ent) s.ll.elems in
          let (indexed, dropped, shorter, same) =
            remove_oldest_lem (push_entry ent s) push_entry-IsIndexed ele old
              (unfold push_entry in last) in
          rw over (
            (
              record {
                indexed = indexed;
                bounded =
                    omega
                      (arith, same, shorter, length-push_entry, max_entries-push_entry, v.bounded);
                room = omega (arith, same, max_entries-push_entry, v.room);
              },
              dropped
                  ∙ (ap drop_last contents-push_entry
                      ∙ sym (
                          write_full
                            (ground (arith, length-contents, length-push_entry, v.bounded)))),
            ))
      | inr fits ↦ rw fits (
          (
            record {
              indexed = push_entry-IsIndexed;
              bounded = ground (arith, max_entries-push_entry);
              room = omega (arith, max_entries-push_entry, v.room);
            },
            contents-push_entry
                ∙ sym (write_fits (ground (arith, length-contents, length-push_entry))),
          ))
    ]

  module _ (ele : ℕ) (hit : lookup ent.key s.items ≡ some ele) where
    length-replace_entry : length (replace_entry ele ent s).ll.elems ≤ s.max_entries
    unfolding replace_entry
    length-replace_entry = omega (
      arith,
      length-set_value ele (Linked.move_to_front ele s.ll) ent,
      length-move_to_front-le ele s.ll,
      v.bounded,
    )

    contents-replace_entry :
        contents (replace_entry ele ent s) ≡ ent ∷ without key_of ent.key (contents s)
    unfolding replace_entry
    contents-replace_entry =
        let (old, at, named) = read_hit key_of v.indexed ent.key ele hit in
        values-set_value_front ele s.ll old ent at
        ∙ ap (◌∷◌ ent) (rw (← named) (values-remove key_of v.indexed ele old at))

    replace_entry_lem :
        IsValid (replace_entry ele ent s)
        × (contents (replace_entry ele ent s) ≡ write s.max_entries ent (contents s))
    unfolding replace_entry
    replace_entry_lem =
        let (old, at, named) = read_hit key_of v.indexed ent.key ele hit in
        (
          record {
            indexed =
                set_value-IsIndexed key_of (move_to_front-IsIndexed key_of v.indexed ele) ele old
                  (value-move_to_front ele s.ll old at) ent (sym named);
            bounded = length-replace_entry;
            room = v.room;
          },
          contents-replace_entry
              ∙ sym (
                  write_fits (
                    omega (
                      arith,
                      ap length contents-replace_entry,
                      length-values (replace_entry ele ent s).ll.elems,
                      length-replace_entry,
                    ))),
        )

  pub store_entry_lem :
      IsValid (store_entry ent s)
      × (contents (store_entry ent s) ≡ write s.max_entries ent (contents s))
  unfolding store_entry
  store_entry_lem = elim (Option-cases (lookup ent.key s.items)) [
    | inl miss ↦ rw (miss, store_entry) (add_entry_lem miss)
    | inr (ele, hit) ↦ rw (hit, store_entry) (replace_entry_lem ele hit)
  ]

-- The limits of a store are fixed when it is made.
pub get-limits : (now : ℕ) (key : Bytes) (s : Store) → limits_of (get now key s).0 ≡ limits_of s
unfolding get remove_element limits_of
get-limits now key s = ground arith

pub store_entry-limits : (ent : Entry) (s : Store) → limits_of (store_entry ent s) ≡ limits_of s
unfolding store_entry add_entry replace_entry push_entry remove_oldest remove_element limits_of
store_entry-limits ent s = ground arith

-- ===== src/Std/Index.antt =====
-- A map from keys to the elements of a list whose values hold those keys: the pairing that the
-- response cache, the rate limiter and the challenge store keep.
pub mod View
use netgoat.Prelude.{
  ℕ, ◌+◌, ◌≤◌, ◌<◌, ◌≡◌, refl, ◌∙◌, sym, Option, none, some, List, [], ◌∷◌, ◌++◌, nat_eq,
  if◌then◌else◌, arith, Eq, ◌==◌, Bool-cases, Option-cases, inl, inr, eq_of_==,
}
use netgoat.Std.Dict.{Dict, lookup, insert, delete, lookup-insert, lookup-delete}
use netgoat.Std.Linked.{
  Linked, empty, value, push_front, push_back, remove, move_to_front, move_to_back, set_value,
}
use netgoat.Std.Positions.{
  handle_of, IsDistinct, IsBelow, handle_of-value, value-handle_of, handle_of-delete, IsBelow-fresh,
  IsBelow-suc, IsBelow-delete, IsBelow-insert, IsBelow-append, IsBelow-value, IsDistinct-delete,
  handle_of-append, IsDistinct-append, handle_of-insert, IsDistinct-insert,
}

-- The map sends each key to the element that holds it, and no element or key stands twice.
pub record IsIndexed {ℓ κ} {K : Type ℓ} {A : Type κ} ⦃e : Eq K⦄ (key : A → K) (d : Dict K ℕ)
    (l : Linked A) : Type (ℓ ⊔ κ) where
  pub position : (k : K) → lookup k d ≡ handle_of key k l.elems
  pub distinct : IsDistinct key l.elems
  pub below : IsBelow l.next l.elems

module _ {ℓ κ} {K : Type ℓ} {A : Type κ} ⦃e : Eq K⦄ (key : A → K) where
  pub empty-IsIndexed : IsIndexed key [] empty
  unfolding lookup handle_of
  empty-IsIndexed = record { position = λ k. refl; distinct = tt; below = tt }

  module _ {d : Dict K ℕ} {l : Linked A} (v : IsIndexed key d l) where
    pub next_absent : lookup l.next l.elems ≡ none
    next_absent = IsBelow-fresh l.next l.next l.elems v.below (omega arith)

    pub push_front-IsIndexed :
        (a : A) → lookup (key a) d ≡ none → IsIndexed key (insert (key a) l.next d) (push_front a l)
    unfolding push_front handle_of
    push_front-IsIndexed a new = record {
      position = λ k. ground (arith, lookup-insert (key a) k l.next d, v.position k);
      distinct = (next_absent, sym (v.position (key a)) ∙ new, v.distinct);
      below = (omega arith, IsBelow-suc l.next l.elems v.below);
    }

    pub push_back-IsIndexed :
        (a : A) → lookup (key a) d ≡ none → IsIndexed key (insert (key a) l.next d) (push_back a l)
    unfolding push_back
    push_back-IsIndexed a new =
        let absent = sym (v.position (key a)) ∙ new in
        record {
          position = λ k. ground (
            arith,
            lookup-insert (key a) k l.next d,
            v.position k,
            handle_of-append key k l.next a l.elems absent,
          );
          distinct = IsDistinct-append key l.next a l.elems v.distinct next_absent absent;
          below =
              IsBelow-append _ l.next a l.elems (IsBelow-suc l.next l.elems v.below) (omega arith);
        }

    module _ (h : ℕ) (a : A) (at : value h l ≡ some a) where
      pub value_key : lookup (key a) d ≡ some h
      value_key = v.position (key a) ∙ handle_of-value key l.elems h a v.distinct at

      pub remove-IsIndexed : IsIndexed key (delete (key a) d) (remove h l)
      unfolding remove
      remove-IsIndexed = record {
        position = λ k. ground (
          arith,
          lookup-delete (key a) k d,
          v.position k,
          handle_of-delete key k h a l.elems v.distinct at,
        );
        distinct = IsDistinct-delete key h l.elems v.distinct;
        below = IsBelow-delete l.next h l.elems v.below;
      }

      moved_absent : handle_of key (key a) (delete h l.elems) ≡ none
      moved_absent =
          ground (
            arith,
            handle_of-delete key (key a) h a l.elems v.distinct at,
            e.beq_iff (key a) (key a),
          )

      moved_gone : lookup h (delete h l.elems) ≡ none
      moved_gone = ground (arith, lookup-delete h h l.elems)

      move_to_front-IsIndexed_at : IsIndexed key d (move_to_front h l)
      unfolding move_to_front handle_of
      move_to_front-IsIndexed_at =
          rw (at, move_to_front)
            (record {
              position = λ k. ground (
                arith,
                v.position k,
                value_key,
                handle_of-delete key k h a l.elems v.distinct at,
                e.beq_iff (key a) k,
              );
              distinct = (moved_gone, moved_absent, IsDistinct-delete key h l.elems v.distinct);
              below = (
                IsBelow-value l.next h a l.elems v.below at,
                IsBelow-delete l.next h l.elems v.below,
              );
            })

      move_to_back-IsIndexed_at : IsIndexed key d (move_to_back h l)
      unfolding move_to_back
      move_to_back-IsIndexed_at =
          rw (at, move_to_back)
            (record {
              position = λ k. ground (
                arith,
                v.position k,
                value_key,
                handle_of-delete key k h a l.elems v.distinct at,
                handle_of-append key k h a (delete h l.elems) moved_absent,
                e.beq_iff (key a) k,
              );
              distinct =
                  IsDistinct-append key h a _ (IsDistinct-delete key h l.elems v.distinct)
                    moved_gone moved_absent;
              below =
                  IsBelow-append l.next h a _ (IsBelow-delete l.next h l.elems v.below)
                    (IsBelow-value l.next h a l.elems v.below at);
            })

      pub set_value-IsIndexed : (b : A) → key b ≡ key a → IsIndexed key d (set_value h b l)
      unfolding set_value
      set_value-IsIndexed b same =
          rw (at, set_value)
            (record {
              position = λ k. v.position k ∙ sym (handle_of-insert key k h a b l.elems at same);
              distinct = IsDistinct-insert key h a b l.elems v.distinct at same;
              below =
                  IsBelow-insert l.next h b l.elems v.below
                    (IsBelow-value l.next h a l.elems v.below at);
            })

    pub move_to_front-IsIndexed : (h : ℕ) → IsIndexed key d (move_to_front h l)
    unfolding move_to_front
    move_to_front-IsIndexed h = elim (Option-cases (value h l)) [
      | inl gone ↦ rw (gone, move_to_front) v
      | inr (a, at) ↦ move_to_front-IsIndexed_at h a at
    ]

    pub move_to_back-IsIndexed : (h : ℕ) → IsIndexed key d (move_to_back h l)
    unfolding move_to_back
    move_to_back-IsIndexed h = elim (Option-cases (value h l)) [
      | inl gone ↦ rw (gone, move_to_back) v
      | inr (a, at) ↦ move_to_back-IsIndexed_at h a at
    ]

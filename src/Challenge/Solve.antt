-- ===== src/Challenge/Solve.antt =====
-- A challenge and its own answer: what `Create` hands out can be solved.
use netgoat.Prelude.{
  ◌==◌, ◌∙◌, ap, ℕ, zero, suc, ◌+◌, ◌*◌, ◌%◌, ◌≤◌, ◌<◌, ◌≡◌, ◌≢◌, refl, sym, Bool, true, Bool-cases,
  inl, inr, none, some, Option-cases, List, [], ◌∷◌, nat_eq, ltb, length, arith, All-get_elem?,
  get_elem?_total,
}
use netgoat.Std.Dict.{lookup}
use netgoat.Std.Text.{Bytes, bytes_eq, bytes_beq_refl, equal_fold, trim_space, to_lower}
use netgoat.Std.Table.{Table}
use netgoat.Std.Table.Laws.{drop_excess-IsKept, drop_expired_absent, drop_excess_absent}
use netgoat.Std.Table.Writes.{find-append_entry}
use netgoat.Std.Table.Live.{if_live}
use netgoat.Challenge.Suspicion.{ChallengeType, no_challenge, text, click, slider}
use netgoat.Challenge.Answers.{
  Draw, words, generate_text_answer, join_seen, generate_click_answer, generate_slider_answer,
  generate_answer,
}
use netgoat.Challenge.Store.{
  Challenge, ChallengeEntry, Store, challenge_id_length, right_answer, cleanup_expired_locked,
  first_unused, new_entry, add_challenge, create, get, verify,
}
use netgoat.Challenge.Valid.{IsValid, cleanup-IsValid, first_unused_absent}
use netgoat.Challenge.Run.{add_challenge-IsValid, open_room, create-some}
use netgoat.Challenge.Verify.{live_challenge, challenge_of, get-live_challenge}
use netgoat.Challenge.Pass.{verify-IsAccepted}

text_answer_short : (b : ℕ) → length (generate_text_answer b) ≤ 8
unfolding generate_text_answer
text_answer_short b =
    let (word, at) = get_elem?_total words (b % 8) (omega arith) in
    let short =
      All-get_elem? (λ w. length w ≤ 8) words (b % 8) word
        (
          omega arith,
          (
            omega arith,
            (
              omega arith,
              (omega arith, (omega arith, (omega arith, (omega arith, (omega arith, tt))))),
            ),
          ),
        )
        at in
    rw (at, generate_text_answer) short

comma :
    (idx : ℕ) (rest : Bytes) (n : ℕ)
    → length rest ≤ 2 * n
    → length ((b'0' + idx) ∷ (elim rest [ [] ↦ [] | c ∷ cs ↦ b',' ∷ c ∷ cs ])) ≤ 2 * suc n
comma idx [] n q = omega arith
comma idx (c ∷ cs) n q = omega arith

length-join_seen : (seen : ℕ → Bool) (n idx : ℕ) → length (join_seen seen n idx) ≤ 2 * n
unfolding join_seen
length-join_seen seen zero idx = omega arith
length-join_seen seen (suc n) idx =
    let rest = length-join_seen seen n (idx + 1) in
    elim (Bool-cases (seen idx)) [
      | inr unseen ↦ rw unseen (omega arith)
      | inl here ↦ rw here (comma idx _ n rest)
    ]

generate_answer_short :
    (kind : ChallengeType) (draw : Draw) → length (generate_answer kind draw) ≤ 256
unfolding generate_answer generate_slider_answer generate_click_answer
generate_answer_short no_challenge draw = omega arith
generate_answer_short text draw = omega (arith, text_answer_short draw.b0)
generate_answer_short click draw = omega (arith, length-join_seen _ 9 0)
generate_answer_short slider draw = omega arith

right_answer_own :
    (c : Challenge) (k : ChallengeType)
    → c.kind ≡ k
    → k ≢ no_challenge
    → right_answer c c.answer ≡ true
unfolding right_answer equal_fold
right_answer_own c no_challenge p some_kind = absurd (some_kind refl)
right_answer_own c text p some_kind =
    rw (p, right_answer) (bytes_beq_refl (to_lower (trim_space c.answer)))
right_answer_own c click p some_kind = rw (p, right_answer) (bytes_beq_refl c.answer)
right_answer_own c slider p some_kind = rw (p, right_answer) (bytes_beq_refl c.answer)

first_unused_total :
    (ids : List Bytes) (t t' : Table Bytes ChallengeEntry) (id : Bytes)
    → first_unused ids t ≡ some id
    → ((k : Bytes) → lookup k t.index ≡ none → lookup k t'.index ≡ none)
    → (id' : Bytes) × (first_unused ids t' ≡ some id')
unfolding first_unused
first_unused_total [] t t' id p fewer = cc
first_unused_total (i ∷ ids) t t' id p fewer = elim (Option-cases (lookup i t'.index)) [
  | inl free ↦ (i, rw (free, first_unused) refl)
  | inr (h', used') ↦ elim (Option-cases (lookup i t.index)) [
    | inl free ↦ let q = fewer i free in cc
    | inr (h, used) ↦
        let (id', found) = first_unused_total ids t t' id (rw (used, first_unused) at p) fewer in
        (id', rw (used', first_unused) found)
  ]
]

cleanup_absent :
    {clock : ℕ} {s : Store} (v : IsValid clock s) (now : ℕ) (k : Bytes)
    → lookup k s.challenges.index ≡ none
    → lookup k (cleanup_expired_locked now s).challenges.index ≡ none
unfolding cleanup_expired_locked
cleanup_absent {s = s} v now k absent =
    drop_expired_absent _ _ _ now _ s.challenges v.opened k absent

module _ (sum : Bytes → Bytes) (ip user_agent : Bytes) (suspicion : ℕ) (kind : ChallengeType)
    (draw : Draw) (ids : List Bytes) (now : ℕ) {s : Store} (v : IsValid now s) where
  -- `Create` ends as soon as one of the ids that it draws is not in use.
  pub create_total :
      (id : Bytes)
      → first_unused ids s.challenges ≡ some id
      → (r : Challenge × Store) × (create sum ip user_agent suspicion kind draw ids now s ≡ some r)
  unfolding create
  create_total id free =
      let clean = cleanup-IsValid v now in
      let s' = cleanup_expired_locked now s in
      let (id', found) = first_unused_total ids s.challenges (open_room s') id free (λ k absent.
        drop_excess_absent _ _ _ s'.max_challenges _ s'.challenges clean.opened k
          (cleanup_absent v now k absent)) in
      (
        add_challenge sum ip user_agent suspicion kind draw now (open_room s') s' id',
        rw (found, create) refl,
      )

  abbrev added : Bytes → Challenge × Store
  added id =
      add_challenge sum ip user_agent suspicion kind draw now
        (open_room (cleanup_expired_locked now s)) (cleanup_expired_locked now s) id

  abbrev IsFree : Bytes → Type 0
  IsFree id = lookup id (open_room (cleanup_expired_locked now s)).index ≡ none

  added-live_challenge :
      (id : Bytes) (later : ℕ)
      → IsFree id
      → later < now + s.challenge_ttl
      → live_challenge id later (added id).1
        ≡ some (
          (open_room (cleanup_expired_locked now s)).order.next,
          new_entry sum ip user_agent suspicion kind draw id now s.challenge_ttl,
        )
  unfolding add_challenge new_entry live_challenge if_live cleanup_expired_locked
  added-live_challenge id later new soon =
      let clean = cleanup-IsValid v now in
      let s' = cleanup_expired_locked now s in
      let e = new_entry sum ip user_agent suspicion kind draw id now s.challenge_ttl in
      let hit =
        find-append_entry _ _ _
          (drop_excess-IsKept _ _ _ s'.max_challenges _ s'.challenges clean.opened) e new in
      let young : ltb later (now + s.challenge_ttl) ≡ true = ground arith in
      rw (hit, live_challenge) (rw (young, if_live) refl)

  added-IsValid : (id : Bytes) → IsFree id → IsValid now (added id).1
  added-IsValid id new =
      add_challenge-IsValid sum ip user_agent suspicion kind draw now (cleanup_expired_locked now s)
        id (cleanup-IsValid v now) new

  verify-added :
      (id : Bytes) (later : ℕ)
      → IsFree id
      → kind ≢ no_challenge
      → length id ≡ challenge_id_length
      → later < now + s.challenge_ttl
      → (verify sum id (generate_answer kind draw) ip later (added id).1).0 ≡ true
  unfolding new_entry
  verify-added id later new some_kind sized soon =
      let e = new_entry sum ip user_agent suspicion kind draw id now s.challenge_ttl in
      (verify-IsAccepted sum (added-IsValid id new) later id (generate_answer kind draw) ip).1 (
        (open_room (cleanup_expired_locked now s)).order.next,
        e,
        record {
          sized = sized;
          found = added-live_challenge id later new soon;
          owned = refl;
          bounded = generate_answer_short kind draw;
          right = right_answer_own e.challenge kind refl some_kind;
        },
      )

  get-added :
      (id : Bytes) (later : ℕ)
      → IsFree id
      → length id ≡ challenge_id_length
      → later < now + s.challenge_ttl
      → (get id later (added id).1).0 ≡ some (added id).0
  unfolding challenge_of add_challenge cleanup_expired_locked
  get-added id later new sized soon =
      let even : (length id == challenge_id_length) ≡ true = rw sized refl in
      get-live_challenge (added-IsValid id new) later id
      ∙ rw even (ap challenge_of (added-live_challenge id later new soon))

  -- For a challenge of any type but none that `Create` has handed out with an id of the right length,
  -- as the next call and before it expires: `Get` finds it under its id, and `Verify` passes its own
  -- answer from the address that it was made for.
  pub create-verify :
      (r : Challenge × Store) (later : ℕ)
      → create sum ip user_agent suspicion kind draw ids now s ≡ some r
      → kind ≢ no_challenge
      → length r.0.id ≡ challenge_id_length
      → later < now + s.challenge_ttl
      → ((get r.0.id later r.1).0 ≡ some r.0)
        × ((verify sum r.0.id r.0.answer ip later r.1).0 ≡ true)
  unfolding add_challenge new_entry
  create-verify r later made some_kind sized soon =
      let (id, free, same) = create-some sum ip user_agent suspicion kind draw ids now s r made in
      let new = first_unused_absent ids _ id free in
      let sized' = rw (sym same) at sized in
      rw (sym same)
        (get-added id later new sized' soon, verify-added id later new some_kind sized' soon)

-- ===== src/Challenge/Pass.antt =====
-- What a call of `Verify` that succeeds proves of the client, and what it leaves.
use netgoat.Prelude.{
  ◌↔◌, ℕ, ◌+◌, ◌≤◌, ◌≡◌, refl, sym, ap, ◌∙◌, true, false, Bool-cases, inl, inr, none, some,
  Option-cases, ◌==◌, ==_refl, eq_of_==, nat_eq, ltb, length, arith,
}
use netgoat.Std.Text.{Bytes, bytes_eq}
use netgoat.Std.Table.{find_entry}
use netgoat.Std.Table.Laws.{
  find_entry-some, lookup-remove_at, find_entry_absent, drop_excess_absent, find_entry-none,
}
use netgoat.Std.Table.Writes.{find-append_entry, find-refresh}
use netgoat.Std.Table.Live.{if_live}
use netgoat.Challenge.Store.{
  ChallengeEntry, VerifiedEntry, Store, entry_id, entry_expires, challenge_id_length,
  max_answer_bytes, right_answer, verified_binding, cleanup_expired_locked, remove_challenge_locked,
  mark_verified_locked, verify_entry, verify, is_verified,
}
use netgoat.Challenge.Valid.{
  from_start, make_room, IsValidFrom, IsValid, cleanup-IsValid, remove_challenge-IsValid,
  room_verified,
}
use netgoat.Challenge.Run.{verify-IsValid}
use netgoat.Challenge.Verify.{find_clean, live_challenge, live_verified, is_verified-live_verified}

-- The entry that a call of `Verify` accepts.
pub record IsAccepted (id answer binding : Bytes) (now h : ℕ) (e : ChallengeEntry) (s : Store)
    : Type 0 where
  pub sized : length id ≡ challenge_id_length
  pub found : live_challenge id now s ≡ some (h, e)
  pub owned : e.binding ≡ binding
  pub bounded : length answer ≤ max_answer_bytes
  pub right : right_answer e.challenge answer ≡ true

pub challenges-mark_verified :
    (binding : Bytes) (now : ℕ) (s : Store)
    → (mark_verified_locked binding now s).challenges ≡ s.challenges
unfolding mark_verified_locked
challenges-mark_verified binding now s =
    elim (Option-cases (find_entry verified_binding binding s.verified)) [
      | inl new ↦ rw (new, mark_verified_locked) refl
      | inr ((h, e), known) ↦ rw (known, mark_verified_locked) refl
    ]

find-mark_verified :
    {lo clock : ℕ} {s : Store} (v : IsValidFrom lo clock s) (binding : Bytes) (now : ℕ)
    → (h : ℕ) × (find_entry verified_binding binding (mark_verified_locked binding now s).verified
        ≡ some (h, record { binding = binding; expires_at = now + s.verification_ttl }))
unfolding mark_verified_locked
find-mark_verified {s = s} v binding now =
    let e : VerifiedEntry = record { binding = binding; expires_at = now + s.verification_ttl } in
    elim (Option-cases (find_entry verified_binding binding s.verified)) [
      | inl new ↦ (
        (make_room s).order.next,
        rw (new, mark_verified_locked)
            (find-append_entry _ _ _ (room_verified v).0 e (
              drop_excess_absent _ _ _ s.max_verified _ s.verified v.passed binding
                (find_entry-none _ _ _ s.verified v.passed binding new))),
      )
      | inr ((h, old), known) ↦
          let (hit, at, same) = find_entry-some _ _ _ v.passed binding h old known in
          (h, rw (known, mark_verified_locked) (find-refresh _ _ _ v.passed h old e at (sym same)))
    ]

module _ (answer binding : Bytes) (now h : ℕ) (e : ChallengeEntry) (s : Store) where
  verify_entry-true :
      (verify_entry answer binding now h e s).0 ≡ true
      → (length answer ≤ max_answer_bytes)
        × (right_answer e.challenge answer ≡ true)
        × ((verify_entry answer binding now h e s).1
            ≡ mark_verified_locked binding now (remove_challenge_locked h e s))
  unfolding verify_entry
  verify_entry-true p = elim (Bool-cases (ltb max_answer_bytes (length answer))) [
    | inl long ↦ let q : false ≡ true = rw (long, verify_entry) at p in cc
    | inr short ↦ elim (Bool-cases (right_answer e.challenge answer)) [
      | inl right ↦ (ground arith, right, rw (short, right, verify_entry) refl)
      | inr wrong ↦ let q : false ≡ true = rw (short, wrong, verify_entry) at p in cc
    ]
  ]

module _ (sum : Bytes → Bytes) {clock : ℕ} {s : Store} (v : IsValid clock s) (now : ℕ)
    (id answer ip : Bytes) where
  pub verify-true :
      (verify sum id answer ip now s).0 ≡ true
      → (h : ℕ) × (e : ChallengeEntry) × IsAccepted id answer (sum ip) now h e s
        × ((verify sum id answer ip now s).1
            ≡ mark_verified_locked
                (sum ip)
                now
                (remove_challenge_locked h e (cleanup_expired_locked now s)))
  unfolding verify
  verify-true p =
      let s' = cleanup_expired_locked now s in
      elim (Bool-cases (length id == challenge_id_length)) [
        | inr odd ↦ let q : false ≡ true = rw (odd, verify) at p in cc
        | inl even ↦ elim (Option-cases (find_entry entry_id id s'.challenges)) [
          | inl miss ↦ let q : false ≡ true = rw (even, miss, verify) at p in cc
          | inr ((h, e), hit) ↦ elim (Bool-cases (e.binding == sum ip)) [
            | inr other ↦ let q : false ≡ true = rw other at (rw (even, hit, verify) at p) in cc
            | inl same ↦
                let q = rw same at (rw (even, hit, verify) at p) in
                let (short, right, after) = verify_entry-true answer (sum ip) now h e s' q in
                (
                  h,
                  e,
                  record {
                    sized = eq_of_== (length id) challenge_id_length even;
                    found = sym (find_clean v now id) ∙ hit;
                    owned = eq_of_== e.binding (sum ip) same;
                    bounded = short;
                    right = right;
                  },
                  rw (even, hit, verify) (rw same after),
                )
          ]
        ]
      ]

  -- `Verify` passes an address exactly when the id has the right length, its challenge has not
  -- expired and was made for that address, and the answer is not too long and right.
  pub verify-IsAccepted :
      ((verify sum id answer ip now s).0 ≡ true)
      ↔ ((h : ℕ) × (e : ChallengeEntry) × IsAccepted id answer (sum ip) now h e s)
  unfolding verify verify_entry
  verify-IsAccepted = (
    λ p. let (h, e, w, after) = verify-true p in (h, e, w),
    λ (h, e, w).
        let s' = cleanup_expired_locked now s in
        let hit : find_entry entry_id id s'.challenges ≡ some (h, e) =
          find_clean v now id ∙ w.found in
        let even : (length id == challenge_id_length) ≡ true = rw w.sized refl in
        let same : (e.binding == sum ip) ≡ true = rw w.owned (==_refl (sum ip)) in
        let short : ltb max_answer_bytes (length answer) ≡ false =
          let q = w.bounded in ground arith in
        rw (even, hit, verify) (rw same (rw (short, w.right, verify_entry) refl)),
  )

  pub verify_absent :
      find_entry entry_id id s.challenges ≡ none → (verify sum id answer ip now s).0 ≡ false
  unfolding live_challenge if_live
  verify_absent gone = elim (Bool-cases (verify sum id answer ip now s).0) [
    | inr failed ↦ failed
    | inl passed ↦
        let (h, e, w, after) = verify-true passed in
        let q : if_live entry_expires now none ≡ some (h, e) =
          ap (if_live entry_expires now) (sym gone) ∙ w.found in
        cc
  ]

module _ (sum : Bytes → Bytes) {s : Store} (now : ℕ) (v : IsValid now s) (id answer ip : Bytes)
    (p : (verify sum id answer ip now s).0 ≡ true) where
  pub find-verify_gone : find_entry entry_id id (verify sum id answer ip now s).1.challenges ≡ none
  unfolding remove_challenge_locked
  find-verify_gone =
      let (h, e, w, after) = verify-true sum v now id answer ip p in
      let s' = cleanup_expired_locked now s in
      let clean = cleanup-IsValid v now in
      let hit : find_entry entry_id id s'.challenges ≡ some (h, e) =
        find_clean v now id ∙ w.found in
      let (_, at, named) = find_entry-some _ _ _ clean.opened id h e hit in
      rw after (
        rw (challenges-mark_verified (sum ip) now (remove_challenge_locked h e s')) (
          find_entry_absent entry_id entry_expires (λ _. Unit) _ id
            (ground (arith, lookup-remove_at _ _ _ clean.opened h e at id, ==_refl id, named))))

  verify_later :
      (later : ℕ) (answer' ip' : Bytes)
      → (verify sum id answer' ip' later (verify sum id answer ip now s).1).0 ≡ false
  verify_later later answer' ip' =
      verify_absent sum (from_start (now + 1) now _ (verify-IsValid sum id answer ip now s v)) later
        id answer' ip' find-verify_gone

  is_verified_later :
      (later : ℕ)
      → (is_verified sum ip later (verify sum id answer ip now s).1).0
        ≡ ltb later (now + s.verification_ttl)
  unfolding live_verified if_live remove_challenge_locked cleanup_expired_locked
  is_verified_later later =
      let (h, e, w, after) = verify-true sum v now id answer ip p in
      let clean = cleanup-IsValid v now in
      let hit = find_clean v now id ∙ w.found in
      let (_, at, named) = find_entry-some _ _ _ clean.opened id h e hit in
      let (h', found) = find-mark_verified (remove_challenge-IsValid clean h e at) (sum ip) now in
      let valid = from_start (now + 1) now _ (verify-IsValid sum id answer ip now s v) in
      is_verified-live_verified sum valid ip later
      ∙ (rw after (
          rw found (elim (Bool-cases (ltb later (now + s.verification_ttl))) [
            | inl soon ↦ rw soon refl
            | inr late ↦ rw late refl
          ])))

  -- Directly after a call of `Verify` that has passed a challenge: a call of `Verify` with its id, at
  -- any time, with any answer and from any address, does not succeed; and a call of `IsVerified` for
  -- the address that has passed holds until the time to live has gone by, and from then on no more.
  pub verify_once :
      (later : ℕ) (answer' ip' : Bytes)
      → let s' = (verify sum id answer ip now s).1 in
        ((verify sum id answer' ip' later s').0 ≡ false)
        × ((is_verified sum ip later s').0 ≡ ltb later (now + s.verification_ttl))
  verify_once later answer' ip' = (verify_later later answer' ip', is_verified_later later)

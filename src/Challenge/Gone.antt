-- ===== src/Challenge/Gone.antt =====
-- A challenge that has been passed stays gone, whatever calls on the store follow.
use netgoat.Prelude.{
  ℕ, ◌+◌, ◌≡◌, ◌≢◌, ◌⊎◌, refl, ap, ◌∙◌, true, false, Bool-cases, inl, inr, none, some, Option-cases,
  List, [], ◌∷◌, ◌==◌, nat_eq, ltb, leb, length, All, arith,
}
use netgoat.Std.Dict.{lookup, lookup-insert, lookup-delete}
use netgoat.Std.Text.{Bytes, bytes_eq, bytes_beq_iff}
use netgoat.Std.Table.{Table, find_entry, remove_at, append_entry}
use netgoat.Std.Table.Laws.{drop_excess_absent, find_entry-none, find_entry_absent}
use netgoat.Std.Table.Live.{if_live}
use netgoat.Challenge.Suspicion.{ChallengeType}
use netgoat.Challenge.Answers.{Draw}
use netgoat.Challenge.Store.{
  Challenge, ChallengeEntry, Store, entry_id, entry_expires, challenge_id_length, max_answer_bytes,
  right_answer, failed_again, cleanup_expired_locked, remove_challenge_locked,
  record_failure_locked, first_unused, new_entry, add_challenge, create, verify_entry, verify,
  is_verified,
}
use netgoat.Challenge.Valid.{from_start, IsValid, later-IsValid, cleanup-IsValid}
use netgoat.Challenge.Run.{
  open_room, Call, create_call, get_call, verify_call, is_verified_call, get_state,
  is_verified_state, create-some, verify-IsValid, call, call-IsValid, run, run_from-IsValid,
}
use netgoat.Challenge.Verify.{find_clean, live_challenge}
use netgoat.Challenge.Pass.{challenges-mark_verified, verify_absent, find-verify_gone, verify_once}

-- The id is not among those that a call of `Create` draws.
abbrev pub Avoids : Bytes → Call → Type 0
Avoids id (create_call ip user_agent suspicion kind draw ids) = All (λ i. i ≢ id) ids
Avoids id (get_call i) = Unit
Avoids id (verify_call i answer ip) = Unit
Avoids id (is_verified_call ip) = Unit

-- No challenge with the id is in the store.
abbrev IsGone : Bytes → Store → Type 0
IsGone id s = lookup id s.challenges.index ≡ none

remove_at_absent :
    (h : ℕ) (e : ChallengeEntry) (t : Table Bytes ChallengeEntry) (id : Bytes)
    → lookup id t.index ≡ none
    → lookup id (remove_at entry_id h e t).index ≡ none
unfolding remove_at
remove_at_absent h e t id gone = elim (Option-cases (lookup (entry_id e) t.index)) [
  | inl miss ↦ rw (miss, remove_at) gone
  | inr (i, hit) ↦ elim (Bool-cases (i == h)) [
    | inr other ↦ rw (hit, remove_at) (rw other gone)
    | inl same ↦
        rw (hit, remove_at)
          (rw same (
            lookup-delete (entry_id e) id t.index
            ∙ elim (Bool-cases (entry_id e == id)) [ inl a ↦ rw a refl | inr b ↦ rw b gone ]))
  ]
]

first_unused-mem :
    (ids : List Bytes) (t : Table Bytes ChallengeEntry) (id found : Bytes)
    → All (λ i. i ≢ id) ids
    → first_unused ids t ≡ some found
    → (found == id) ≡ false
unfolding first_unused
first_unused-mem [] t id found avoids p = cc
first_unused-mem (i ∷ ids) t id found (other, avoids) p = elim (Option-cases (lookup i t.index)) [
  | inr (h, used) ↦ first_unused-mem ids t id found avoids (ground (arith, used))
  | inl free ↦
      let same : i ≡ found = ground (arith, free) in
      elim (Bool-cases (found == id)) [
        | inr apart ↦ apart
        | inl equal ↦ absurd (other (same ∙ (bytes_beq_iff found id).0 equal))
      ]
]

module _ (id : Bytes) where
  cleanup-IsGone :
      (now : ℕ) (s : Store) → IsValid now s → IsGone id s → IsGone id (cleanup_expired_locked now s)
  unfolding live_challenge if_live
  cleanup-IsGone now s v gone = find_entry-none _ _ _ _ (cleanup-IsValid v now).opened id (
      find_clean v now id
      ∙ ap (if_live entry_expires now)
          (find_entry_absent entry_id entry_expires (λ _. Unit) _ id gone))

  record_failure-IsGone :
      (h : ℕ) (e : ChallengeEntry) (s : Store)
      → IsGone id s
      → IsGone id (record_failure_locked h e s)
  unfolding record_failure_locked remove_challenge_locked
  record_failure-IsGone h e s gone =
      elim (Bool-cases (leb s.max_failed_attempts (e.failed_attempts + 1))) [
        | inl last_try ↦
            rw (last_try, record_failure_locked) (remove_at_absent h (failed_again e) _ id gone)
        | inr more ↦ rw (more, record_failure_locked) gone
      ]

  verify_entry-IsGone :
      (answer binding : Bytes) (now h : ℕ) (e : ChallengeEntry) (s : Store)
      → IsGone id s
      → IsGone id (verify_entry answer binding now h e s).1
  unfolding verify_entry
  verify_entry-IsGone answer binding now h e s gone =
      elim (Bool-cases (ltb max_answer_bytes (length answer))) [
        | inl long ↦ rw (long, verify_entry) (record_failure-IsGone h e s gone)
        | inr short ↦ elim (Bool-cases (right_answer e.challenge answer)) [
          | inr wrong ↦ rw (short, wrong, verify_entry) (record_failure-IsGone h e s gone)
          | inl right ↦
              rw (short, right, verify_entry)
                (rw (challenges-mark_verified binding now (remove_challenge_locked h e s))
                  (unfold remove_challenge_locked in remove_at_absent h e s.challenges id gone))
        ]
      ]

  module _ (sum : Bytes → Bytes) where
    verify-IsGone :
        (i answer ip : Bytes) (now : ℕ) (s : Store)
        → IsValid now s
        → IsGone id s
        → IsGone id (verify sum i answer ip now s).1
    unfolding verify
    verify-IsGone i answer ip now s v gone =
        let s' = cleanup_expired_locked now s in
        let gone' = cleanup-IsGone now s v gone in
        elim (Bool-cases (length i == challenge_id_length)) [
          | inr odd ↦ rw (odd, verify) gone'
          | inl even ↦ elim (Option-cases (find_entry entry_id i s'.challenges)) [
            | inl miss ↦ rw (even, miss, verify) gone'
            | inr ((h, e), hit) ↦ elim (Bool-cases (e.binding == sum ip)) [
              | inr other ↦ rw (even, hit, verify) (rw other gone')
              | inl same ↦
                  rw (even, hit, verify)
                    (rw same (verify_entry-IsGone answer (sum ip) now h e s' gone'))
            ]
          ]
        ]

    create-IsGone :
        (ip user_agent : Bytes) (suspicion : ℕ) (kind : ChallengeType) (draw : Draw)
        (ids : List Bytes) (now : ℕ) (s : Store) (r : Challenge × Store)
        → IsValid now s
        → All (λ i. i ≢ id) ids
        → create sum ip user_agent suspicion kind draw ids now s ≡ some r
        → IsGone id s
        → IsGone id r.1
    unfolding add_challenge append_entry new_entry
    create-IsGone ip user_agent suspicion kind draw ids now s r v avoids made gone =
        let s' = cleanup_expired_locked now s in
        let (i, free, same) = create-some sum ip user_agent suspicion kind draw ids now s r made in
        let apart = first_unused-mem ids _ id i avoids free in
        let room =
          drop_excess_absent _ _ _ s'.max_challenges _ s'.challenges (cleanup-IsValid v now).opened
            id (cleanup-IsGone now s v gone) in
        rw (← same)
          (lookup-insert i id (open_room s').order.next (open_room s').index ∙ rw apart room)

    kept_or_clean-IsGone :
        (now : ℕ) (s t : Store)
        → IsValid now s
        → (t ≡ s) ⊎ (t ≡ cleanup_expired_locked now s)
        → IsGone id s
        → IsGone id t
    kept_or_clean-IsGone now s t v (inl same) gone = rw same gone
    kept_or_clean-IsGone now s t v (inr clean) gone = rw clean (cleanup-IsGone now s v gone)

    call-IsGone :
        (now : ℕ) (c : Call) (s : Store)
        → IsValid now s
        → Avoids id c
        → IsGone id s
        → IsGone id (call sum now c s)
    unfolding call
    call-IsGone now (create_call ip user_agent suspicion kind draw ids) s v avoids gone =
        elim (Option-cases (create sum ip user_agent suspicion kind draw ids now s)) [
          | inl nothing ↦ rw (nothing, call) gone
          | inr (r, made) ↦
              rw (made, call)
                (create-IsGone ip user_agent suspicion kind draw ids now s r v avoids made gone)
        ]
    call-IsGone now (get_call i) s v avoids gone =
        kept_or_clean-IsGone now s _ v (get_state i now s) gone
    call-IsGone now (verify_call i answer ip) s v avoids gone =
        verify-IsGone i answer ip now s v gone
    call-IsGone now (is_verified_call ip) s v avoids gone =
        kept_or_clean-IsGone now s _ v (is_verified_state sum ip now s) gone

    run-IsGone :
        (calls : List (ℕ × Call)) (now : ℕ) (s : Store)
        → IsValid now s
        → All (λ c. Avoids id c.1) calls
        → IsGone id s
        → IsGone id (run sum now calls s)
    unfolding run
    run-IsGone [] now s v avoids gone = gone
    run-IsGone ((delay, c) ∷ calls) now s v (avoids, rest) gone =
        let later = later-IsValid v (now + delay) (omega arith) in
        run-IsGone calls (now + delay) _ (call-IsValid sum (now + delay) c s later) rest
          (call-IsGone (now + delay) c s later avoids gone)

-- After a call of `Verify` that has passed a challenge, and any further calls on the store at times
-- that do not fall, of which no `Create` draws the id of that challenge again: `Verify` does not
-- succeed with its id, at any time, with any answer and from any address. And directly after the call
-- that has passed it, `IsVerified` holds for the address until the time to live has gone by, and from
-- then on no more.
pub run_verify_once :
    (sum : Bytes → Bytes) (now : ℕ) (s : Store) (id answer ip : Bytes) (calls : List (ℕ × Call))
    (later : ℕ) (answer' ip' : Bytes)
    → IsValid now s
    → (verify sum id answer ip now s).0 ≡ true
    → All (λ c. Avoids id c.1) calls
    → let s' = (verify sum id answer ip now s).1 in
      ((verify sum id answer' ip' later (run sum now calls s')).0 ≡ false)
      × ((is_verified sum ip later s').0 ≡ ltb later (now + s.verification_ttl))
run_verify_once sum now s id answer ip calls later answer' ip' v passed avoids =
    let s' = (verify sum id answer ip now s).1 in
    let v' = from_start (now + 1) now _ (verify-IsValid sum id answer ip now s v) in
    let gone =
      find_entry-none _ _ _ s'.challenges v'.opened id
        (find-verify_gone sum now v id answer ip passed) in
    (
      verify_absent sum (run_from-IsValid sum calls now s' v') later id answer' ip' (
          find_entry_absent entry_id entry_expires (λ _. Unit) _ id
            (run-IsGone id sum calls now s' v' avoids gone)),
      (verify_once sum now v id answer ip passed later answer' ip').1,
    )

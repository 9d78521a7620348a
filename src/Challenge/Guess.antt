-- ===== src/Challenge/Guess.antt =====
-- Wrong answers to one challenge: they are counted, and it is closed when the tries are used up.
use netgoat.Prelude.{
  ◌⊎◌, ℕ, ◌+◌, ◌≤◌, ◌≡◌, refl, ap, ◌∙◌, true, false, Bool-cases, inl, inr, none, some, List, [],
  ◌∷◌, ◌==◌, ==_refl, nat_eq, ltb, leb, length, arith, map, All,
}
use netgoat.Std.Text.{Bytes, bytes_eq}
use netgoat.Std.Index.{value_key}
use netgoat.Std.Table.{find_entry, remove_at}
use netgoat.Std.Table.Laws.{find_entry-some, lookup-remove_at, find_entry_absent, find_entry_timed}
use netgoat.Std.Table.Writes.{value-set_value, remove_at-set_value}
use netgoat.Std.Table.Live.{if_live}
use netgoat.Challenge.Store.{
  Challenge, ChallengeEntry, Store, entry_id, entry_expires, challenge_id_length, max_answer_bytes,
  right_answer, cleanup_expired_locked, remove_challenge_locked, record_failure_locked,
  failed_again, verify_entry, verify,
}
use netgoat.Challenge.Valid.{from_start, later-IsValid, IsValidFrom, IsValid, cleanup-IsValid}
use netgoat.Challenge.Run.{verify-IsValid, Call, verify_call, call, run}
use netgoat.Challenge.Verify.{find_clean, live_challenge}

-- An answer that is too long counts as wrong, whatever it says.
abbrev pub IsWrong : Challenge → Bytes → Type 0
IsWrong c answer = (ltb max_answer_bytes (length answer) ≡ true) ⊎ (right_answer c answer ≡ false)

-- Closed, or open with one more failure.
abbrev IsCounted : Bytes → ℕ → ChallengeEntry → Store → Type 0
IsCounted id h e s =
    (find_entry entry_id id s.challenges ≡ none)
    ⊎ (find_entry entry_id id s.challenges ≡ some (h, failed_again e))

module _ {lo clock : ℕ} {s : Store} (v : IsValidFrom lo clock s) (id : Bytes) (h : ℕ)
    (e : ChallengeEntry) (found : find_entry entry_id id s.challenges ≡ some (h, e)) where
  record_failure-IsCounted : IsCounted id h e (record_failure_locked h e s)
  unfolding record_failure_locked remove_challenge_locked find_entry
  record_failure-IsCounted =
      let (hit, at, named) = find_entry-some _ _ _ v.opened id h e found in
      elim (Bool-cases (leb s.max_failed_attempts (e.failed_attempts + 1))) [
        | inl last_try ↦ inl (
            rw (last_try, record_failure_locked)
              (rw
                (remove_at-set_value entry_id h e (failed_again e) s.challenges
                  (value_key entry_id v.opened.indexed h e at) at refl)
                (find_entry_absent entry_id entry_expires (λ _. Unit)
                  (remove_at entry_id h e s.challenges) id
                  (ground (arith, lookup-remove_at _ _ _ v.opened h e at id, ==_refl id, named)))))
        | inr more ↦ inr (
            rw (more, record_failure_locked)
              (rw hit (rw (value-set_value _ _ _ v.opened h e (failed_again e) at refl) refl)))
      ]

  record_failure_limit : (record_failure_locked h e s).max_failed_attempts ≡ s.max_failed_attempts
  unfolding record_failure_locked remove_challenge_locked
  record_failure_limit = elim (Bool-cases (leb s.max_failed_attempts (e.failed_attempts + 1))) [
    | inl last_try ↦ rw (last_try, record_failure_locked) refl
    | inr more ↦ rw (more, record_failure_locked) refl
  ]

verify_entry_wrong :
    (answer binding : Bytes) (now h : ℕ) (e : ChallengeEntry) (s : Store)
    → IsWrong e.challenge answer
    → verify_entry answer binding now h e s ≡ (false, record_failure_locked h e s)
unfolding verify_entry
verify_entry_wrong answer binding now h e s (inl long) = rw (long, verify_entry) refl
verify_entry_wrong answer binding now h e s (inr wrong) =
    elim (Bool-cases (ltb max_answer_bytes (length answer))) [
      | inl long ↦ rw (long, verify_entry) refl
      | inr short ↦ rw (short, wrong, verify_entry) refl
    ]

module _ (sum : Bytes → Bytes) (id ip : Bytes)
    (sized : (length id == challenge_id_length) ≡ true) where
  module _ (answer : Bytes) (now : ℕ) {clock : ℕ} {s : Store} (v : IsValid clock s) where
    verify_gone :
        find_entry entry_id id (cleanup_expired_locked now s).challenges ≡ none
        → verify sum id answer ip now s ≡ (false, cleanup_expired_locked now s)
    unfolding verify
    verify_gone gone = rw (sized, gone, verify) refl

    verify_wrong :
        (h : ℕ) (e : ChallengeEntry)
        → find_entry entry_id id (cleanup_expired_locked now s).challenges ≡ some (h, e)
        → e.binding ≡ sum ip
        → IsWrong e.challenge answer
        → verify sum id answer ip now s
          ≡ (false, record_failure_locked h e (cleanup_expired_locked now s))
    unfolding verify
    verify_wrong h e hit owned wrong =
        let same : (e.binding == sum ip) ≡ true = rw owned (==_refl (sum ip)) in
        rw (sized, hit, verify)
          (rw same
            (verify_entry_wrong answer (sum ip) now h e (cleanup_expired_locked now s) wrong))

  live_or_gone :
      (now : ℕ) {clock : ℕ} {s : Store} (v : IsValid clock s) (h : ℕ) (e : ChallengeEntry)
      → find_entry entry_id id s.challenges ≡ some (h, e)
      → (find_entry entry_id id (cleanup_expired_locked now s).challenges ≡ none)
        ⊎ (find_entry entry_id id (cleanup_expired_locked now s).challenges ≡ some (h, e))
  unfolding live_challenge if_live
  live_or_gone now v h e hit = elim (Bool-cases (ltb now e.challenge.expires_at)) [
    | inl live ↦ inr (find_clean v now id ∙ rw (hit, live_challenge) (rw (live, if_live) refl))
    | inr old ↦ inl (find_clean v now id ∙ rw (hit, live_challenge) (rw (old, if_live) refl))
  ]

  abbrev pub guess_calls : List (ℕ × Bytes) → List (ℕ × Call)
  guess_calls guesses = map (λ (delay, answer). (delay, verify_call id answer ip)) guesses

  stays_closed :
      (guesses : List (ℕ × Bytes)) (now : ℕ) (s : Store)
      → IsValid now s
      → find_entry entry_id id s.challenges ≡ none
      → find_entry entry_id id (run sum now (guess_calls guesses) s).challenges ≡ none
  unfolding run call live_challenge if_live
  stays_closed [] now s v gone = gone
  stays_closed ((delay, answer) ∷ guesses) now s v gone =
      let later = later-IsValid v (now + delay) (omega arith) in
      let clean : find_entry entry_id id (cleanup_expired_locked (now + delay) s).challenges
          ≡ none =
        find_clean later (now + delay) id ∙ ap (if_live entry_expires (now + delay)) gone in
      stays_closed guesses (now + delay) _
        (from_start (now + delay + 1) (now + delay) _
          (verify-IsValid sum id answer ip (now + delay) s later))
        (rw (verify_gone answer (now + delay) later clean) clean)

  -- When as many wrong answers are given to a challenge as it has tries left, the challenge is
  -- closed, whatever the times at which they are given.
  pub guesses_close :
      (guesses : List (ℕ × Bytes)) (now : ℕ) (s : Store) (h : ℕ) (e : ChallengeEntry)
      → IsValid now s
      → find_entry entry_id id s.challenges ≡ some (h, e)
      → e.binding ≡ sum ip
      → All (λ (delay, answer). IsWrong e.challenge answer) guesses
      → s.max_failed_attempts ≤ e.failed_attempts + length guesses
      → find_entry entry_id id (run sum now (guess_calls guesses) s).challenges ≡ none
  unfolding run call cleanup_expired_locked
  guesses_close [] now s h e v hit owned wrong enough =
      let (tries, _, _) = find_entry_timed _ _ _ s.challenges v.opened id h e hit in
      absurd (omega arith)
  guesses_close ((delay, answer) ∷ guesses) now s h e v hit owned (first, rest) enough =
      let at = now + delay in
      let later = later-IsValid v at (omega arith) in
      let after = from_start (at + 1) at _ (verify-IsValid sum id answer ip at s later) in
      elim (live_or_gone at later h e hit) [
        | inl gone ↦ stays_closed guesses at _ after (rw (verify_gone answer at later gone) gone)
        | inr clean ↦
            let same = ap (λ r. r.1) (verify_wrong answer at later h e clean owned first) in
            elim (record_failure-IsCounted (cleanup-IsValid later at) id h e clean) [
              | inl closed ↦ stays_closed guesses at _ after (rw same closed)
              | inr counted ↦
                  guesses_close guesses at _ h (failed_again e) after (rw same counted) owned rest (
                    rw same (
                      rw (record_failure_limit (cleanup-IsValid later at) id h e clean)
                        (omega arith)))
            ]
      ]

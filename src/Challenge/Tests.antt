-- ===== src/Challenge/Tests.antt =====
-- Runs of the challenge store, with the identity for the digest, and the theorems on them.
use netgoat.Prelude.{
  List, ◌≢◌, ℕ, ◌+◌, ◌≤◌, ◌<◌, ◌≡◌, refl, true, false, none, some, [], ◌∷◌, inr, nat_eq, ltb, arith,
  pos, ◌↔◌,
}
use netgoat.Std.Dict.{lookup, insert}
use netgoat.Std.Text.{
  contains, to_lower, bytes_beq, bytes_beq_iff, trim_space, equal_fold, Bytes, bytes_eq, codes,
}
use netgoat.Std.Linked
use netgoat.Std.Table.{find_entry, append_entry, drop_expired, drop_excess}
use netgoat.Challenge.Suspicion.{text, capped, points, has_any, count_byte, calculate_suspicion}
use netgoat.Challenge.Answers.{
  Draw, join_seen, generate_click_answer, generate_answer, generate_text_answer,
}
use netgoat.Challenge.Store.{
  Challenge, ChallengeEntry, Store, entry_id, new_store, cleanup_expired_locked, first_unused,
  new_entry, add_challenge, create, get, verify, is_verified, right_answer,
}
use netgoat.Challenge.Valid.{later-IsValid, IsValid, new_store-IsValid}
use netgoat.Challenge.Run.{
  Call, run, run_end, run-IsValid, create_call, get_call, verify_call, create-IsValid,
}
use netgoat.Challenge.Pass.{IsAccepted, verify-IsAccepted}
use netgoat.Challenge.Gone.{run_verify_once}
use netgoat.Challenge.Guess.{guess_calls, guesses_close}
use netgoat.Challenge.Solve.{create-verify}

abbrev sum : Bytes → Bytes
sum ip = ip

abbrev id : Bytes
id = codes "AAAAAAAAAAAAAAAAAAAAAA"

abbrev ip : Bytes
ip = codes "10.0.0.9"

abbrev curl : Bytes
curl = codes "curl/8"

abbrev draw : Draw
draw = record { b0 = 9; b1 = 18; b2 = 4 }

abbrev empty_store : Store
empty_store = new_store (pos 2) (pos 2) (pos 2) (pos 10) (pos 100)

abbrev result : Challenge × Store
result =
    add_challenge sum ip curl 55 text draw 5 (cleanup_expired_locked 5 empty_store).challenges
      (cleanup_expired_locked 5 empty_store) id

empty_store-IsValid : IsValid 5 empty_store
empty_store-IsValid = new_store-IsValid (pos 2) (pos 2) (pos 2) (pos 10) (pos 100) 5

soon : 7 < 5 + empty_store.challenge_ttl
unfolding new_store
soon = omega arith

sooner : 6 < 5 + empty_store.challenge_ttl
unfolding new_store
sooner = omega arith

abbrev entry : ChallengeEntry
entry = new_entry sum ip curl 55 text draw id 5 10

made : create sum ip curl 55 text draw (id ∷ []) 5 empty_store ≡ some result
unfolding create cleanup_expired_locked drop_expired drop_excess first_unused new_store lookup
made = refl

result-IsValid : IsValid 5 result.1
result-IsValid =
    create-IsValid sum ip curl 55 text draw (id ∷ []) 5 empty_store result empty_store-IsValid made

result-later : IsValid 6 result.1
result-later = later-IsValid result-IsValid 6 (omega arith)

curl_score : calculate_suspicion curl ip ≡ 70
unfolding calculate_suspicion capped points has_any contains to_lower bytes_beq count_byte
curl_score = refl

clicks : generate_click_answer 9 18 4 ≡ codes "0,4"
unfolding generate_click_answer join_seen
clicks = refl

run-IsValid_example : IsValid 8 (
    run sum 2
      ((3, create_call ip curl 55 text draw (id ∷ []))
        ∷ (2, verify_call id (codes "ocean") ip)
        ∷ (1, get_call id)
        ∷ [])
      empty_store)
unfolding run_end
run-IsValid_example = run-IsValid sum (pos 2) (pos 2) (pos 2) (pos 10) (pos 100) _ 2

found : get id 6 result.1 ≡ (some result.0, result.1)
unfolding get find_entry lookup append_entry insert Linked.push_back add_challenge drop_excess
    cleanup_expired_locked drop_expired new_store new_entry bytes_beq
found = refl

create-verify_example :
    ((get id 7 result.1).0 ≡ some result.0)
    × ((verify sum id (generate_answer text draw) ip 7 result.1).0 ≡ true)
unfolding add_challenge new_entry
create-verify_example =
    create-verify sum ip curl 55 text draw (id ∷ []) 5 empty_store-IsValid result 7 made (λ e. cc)
      refl soon

solved : (verify sum id (codes "mountain") ip 6 result.1).0 ≡ true
unfolding add_challenge new_entry generate_answer generate_text_answer
solved =
    let (seen, passed) =
      create-verify sum ip curl 55 text draw (id ∷ []) 5 empty_store-IsValid result 6 made (λ e. cc)
        refl sooner in
    passed

verify-IsAccepted_example :
    ((verify sum id (codes "river") ip 6 result.1).0 ≡ true)
    ↔ ((h : ℕ) × (e : ChallengeEntry) × IsAccepted id (codes "river") ip 6 h e result.1)
verify-IsAccepted_example = verify-IsAccepted sum result-IsValid 6 id (codes "river") ip

apart : codes "BBBBBBBBBBBBBBBBBBBBBB" ≢ id
unfolding bytes_beq
apart e = let q : false ≡ true = (bytes_beq_iff (codes "BBBBBBBBBBBBBBBBBBBBBB") id).1 e in cc

-- Another challenge is asked for, and the passed one is tried again.
abbrev later_calls : List (ℕ × Call)
later_calls =
    (2, create_call ip curl 55 text draw (codes "BBBBBBBBBBBBBBBBBBBBBB" ∷ []))
    ∷ (3, verify_call id (codes "mountain") ip)
    ∷ []

run_verify_once_example :
    let s' = (verify sum id (codes "mountain") ip 6 result.1).1 in
    ((verify sum id (codes "mountain") ip 90 (run sum 6 later_calls s')).0 ≡ false)
    × ((is_verified sum ip 90 s').0 ≡ ltb 90 106)
unfolding add_challenge cleanup_expired_locked new_store
run_verify_once_example =
    run_verify_once sum 6 result.1 id (codes "mountain") ip later_calls 90 (codes "mountain") ip
      result-later solved ((apart, tt), (tt, tt))

found_entry : find_entry entry_id id result.1.challenges ≡ some (0, entry)
unfolding find_entry lookup append_entry insert Linked.push_back add_challenge drop_excess
    cleanup_expired_locked drop_expired new_store new_entry bytes_beq
found_entry = refl

ocean : right_answer entry.challenge (codes "ocean") ≡ false
unfolding right_answer new_entry generate_answer generate_text_answer equal_fold to_lower trim_space
    bytes_beq
ocean = refl

river : right_answer entry.challenge (codes "river") ≡ false
unfolding right_answer new_entry generate_answer generate_text_answer equal_fold to_lower trim_space
    bytes_beq
river = refl

two_tries : result.1.max_failed_attempts ≤ 0 + 2
unfolding add_challenge cleanup_expired_locked new_store
two_tries = omega arith

guesses_close_example :
    find_entry entry_id id
      (run sum 5
        (guess_calls sum id ip refl ((1, codes "ocean") ∷ (2, codes "river") ∷ []))
        result.1).challenges
    ≡ none
unfolding new_entry
guesses_close_example =
    guesses_close sum id ip refl ((1, codes "ocean") ∷ (2, codes "river") ∷ []) 5 result.1 0 entry
      result-IsValid found_entry refl (inr ocean, (inr river, tt)) two_tries

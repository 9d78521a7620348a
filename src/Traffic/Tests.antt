-- ===== src/Traffic/Tests.antt =====
-- The rate limiter of internal/traffic/limiter.go with one request a minute and a burst of two.
use netgoat.Prelude.{
  ℕ, ◌+◌, ◌-◌, ◌*◌, ◌≤◌, ◌≡◌, refl, Bool, true, false, List, [], ◌∷◌, arith, pos, ◌^◌, ◌⊎◌,
}
use netgoat.Std.Dict.{lookup, insert, delete}
use netgoat.Std.Linked.{push_front, remove, move_to_front}
use netgoat.Std.Text.{Bytes, codes, bytes_beq}
use netgoat.Traffic.Limiter.{
  RateLimiter, RateBucket, token, minute, new_rate_limiter, remove_bucket, prune_one, prune_loop,
  prune_locked, remove_oldest, ensure_capacity_locked, refill, take_token, admit_known, add_bucket,
  admit_key, bucket_key, allow_at,
}
use netgoat.Traffic.Bandwidth.{Bucket, byte, fill, take_bytes, reserve, chunks, reserve_after_wait}
use netgoat.Traffic.Queue.{Queue, new_queue, System, idle, Reach, here, next, enter, arrive, park}
use netgoat.Traffic.Admission.{IsAdmitted, Reach-IsAdmitted}
use netgoat.Traffic.Rate.{take_tokens, take_tokens_bound}
use netgoat.Traffic.Bounded.{IsBounded, allow_all, allow_all-IsBounded}

program : Unit {0}
unfolding new_rate_limiter remove_bucket prune_one prune_loop prune_locked remove_oldest
    ensure_capacity_locked refill take_token admit_known add_bucket admit_key bucket_key allow_at
    take_tokens allow_all lookup insert delete push_front remove move_to_front bytes_beq
program = tt

allowed : List (Bytes × ℕ) → RateLimiter → List Bool
allowed [] l = []
allowed ((key, now) ∷ es) l = let (l', ok) = allow_at key now l in ok ∷ allowed es l'

abbrev limiter : RateLimiter
limiter = new_rate_limiter (pos 1) (pos 2)

abbrev requests : List (Bytes × ℕ)
requests =
    (codes "a", 1) ∷ (codes "a", 2) ∷ (codes "a", 3) ∷ (codes "b", 4) ∷ (codes "a", minute + 9) ∷ []

third_refused : allowed requests limiter ≡ true ∷ true ∷ false ∷ true ∷ true ∷ []
unfolding program allowed
third_refused = refl

abbrev full : RateBucket
full = record { tokens = 2 * token; last = 5; rate_element = 0 }

take_tokens_bound_example :
    (take_tokens 1 (2 * token) (6 ∷ 7 ∷ 8 ∷ []) full).0 * token ≤ 2 * token + (10 - 6) * 1
take_tokens_bound_example =
    take_tokens_bound 1 (2 * token) 6 10 (6 ∷ 7 ∷ 8 ∷ []) full (omega arith) (omega arith)
      ((omega arith, omega arith), ((omega arith, omega arith), ((omega arith, omega arith), tt)))

allow_all-IsBounded_example : IsBounded (allow_all requests (new_rate_limiter (pos 1) (pos 2)))
allow_all-IsBounded_example = allow_all-IsBounded (pos 1) (pos 2) requests

abbrev queue : Queue
queue = new_queue (pos 1) (pos 1) (pos 3)

-- One request runs, one has come after it and waits.
abbrev busy : System
busy = record {
  queue = record queue { sem = 1; waiting = 1 };
  arriving = 0;
  parked = 1;
  leaving = 0;
  running = 1;
}

Reach-busy : Reach (idle (new_queue (pos 1) (pos 1) (pos 3))) busy
unfolding idle new_queue
Reach-busy =
    next (next (next here (enter (omega arith))) (arrive (omega arith)))
      (park (omega arith) (omega arith))

Reach-IsAdmitted_example : IsAdmitted (new_queue (pos 1) (pos 1) (pos 3)) busy
Reach-IsAdmitted_example = Reach-IsAdmitted (pos 1) (pos 1) (pos 3) busy Reach-busy

abbrev drained : Bucket
drained = record { tokens = 0; last = 5 }

two_chunks_and_a_wait :
    (chunks 4 6 6 ≡ 4 ∷ 2 ∷ []) × ((reserve 2 (4 * byte) 4 5 drained).1 ≡ 2 * byte + 10 ^ 6)
unfolding chunks reserve fill take_bytes
two_chunks_and_a_wait = (refl, refl)

reserve_after_wait_example :
    ((reserve 2 (4 * byte) 4 5 drained).1 ≡ 0)
    ⊎ ((reserve 2
          (4 * byte)
          4
          (5 + (reserve 2 (4 * byte) 4 5 drained).1)
          (reserve 2 (4 * byte) 4 5 drained).0).1
        ≡ 0)
reserve_after_wait_example =
    reserve_after_wait 2 (4 * byte) 4 5 drained (omega arith) (omega arith) (omega arith)

-- ===== src/Metrics/Counts.antt =====
-- What the counters of internal/metrics/metrics.go count.
use netgoat.Prelude.{
  ℕ, ◌+◌, ◌%◌, ◌^◌, ◌<◌, ◌≡◌, refl, ap, ◌∙◌, Bool, true, false, Bool-cases, inl, inr, Option, none,
  some, List, [], ◌∷◌, if◌then◌else◌, ◌==◌, eq_of_==, Eq, nat_eq, arith,
}
use netgoat.Std.Dict.{Dict, lookup, lookup-insert}
use netgoat.Std.Text.{Bytes, bytes_eq}
use netgoat.Metrics.Recorder.{
  Recorder, new_recorder, add_uint64, count_of, increment, status_of, block_reason, record_request,
  record_response, record_blocked, record_cache_hit, record_proxy_error, Record, request, response,
  block, cache_hit, proxy_error, recorded, record_all,
}

count_of-increment {ℓ} :
    {K : Type ℓ} ⦃e : Eq K⦄ (k j : K) (d : Dict K ℕ)
    → count_of j (increment k d) ≡ (if k == j then (count_of j d + 1) % 2 ^ 64 else count_of j d)
unfolding count_of increment add_uint64
count_of-increment ⦃e⦄ k j d =
    let set = lookup-insert k j ((count_of k d + 1) % 2 ^ 64) d in
    let read = λ (o : Option ℕ). elim o as (λ _. ℕ) [ none ↦ 0 | some n ↦ n ] in
    elim (Bool-cases (k == j)) [
      | inl same ↦
          let k_j = eq_of_== k j same in
          rw same (ap read (rw same at set) ∙ ap (λ i. (count_of i d + 1) % 2 ^ 64) k_j)
      | inr other ↦ rw other (ap read (rw other at set))
    ]

-- One more, or not, and then the rest: the sum is the same.
advance :
    (b : Bool) (c c' n out : ℕ)
    → c' ≡ (if b then (c + 1) % 2 ^ 64 else c)
    → (c' < 2 ^ 64 → out ≡ (c' + n) % 2 ^ 64)
    → c < 2 ^ 64
    → out ≡ (c + (n + (if b then 1 else 0))) % 2 ^ 64
advance true c c' n out one rest small = omega (arith, one, rest (omega arith))
advance false c c' n out one rest small = omega (arith, one, rest (omega arith))

-- The requests that were answered, those answered with one status, those that were turned away, and
-- those turned away for one reason.
unfoldable pub answered : List (ℕ × Record) → ℕ
answered [] = 0
answered ((_, response status bytes duration) ∷ calls) = answered calls + 1
answered ((_, _) ∷ calls) = answered calls

unfoldable pub answered_with : ℕ → List (ℕ × Record) → ℕ
answered_with status [] = 0
answered_with status ((_, response s bytes duration) ∷ calls) =
    answered_with status calls + (if status_of s == status then 1 else 0)
answered_with status ((_, _) ∷ calls) = answered_with status calls

unfoldable pub turned_away : Bytes → List (ℕ × Record) → ℕ
turned_away reason [] = 0
turned_away reason ((_, block why) ∷ calls) =
    turned_away reason calls + (if block_reason why == reason then 1 else 0)
turned_away reason ((_, _) ∷ calls) = turned_away reason calls

statuses_from :
    (status : ℕ) (calls : List (ℕ × Record)) (r : Recorder)
    → count_of status r.statuses < 2 ^ 64
    → count_of status (record_all calls r).statuses
      ≡ (count_of status r.statuses + answered_with status calls) % 2 ^ 64
unfolding record_all recorded answered_with record_request record_response record_blocked
    record_cache_hit record_proxy_error
statuses_from status [] r small = omega arith
statuses_from status ((now, request) ∷ calls) r small = statuses_from status calls _ small
statuses_from status ((now, response s bytes duration) ∷ calls) r small =
    advance (status_of s == status) _ _ (answered_with status calls) _
      (count_of-increment (status_of s) status r.statuses)
      (statuses_from status calls (record_response now s bytes duration r)) small
statuses_from status ((now, block why) ∷ calls) r small = statuses_from status calls _ small
statuses_from status ((now, cache_hit) ∷ calls) r small = statuses_from status calls _ small
statuses_from status ((now, proxy_error err) ∷ calls) r small = statuses_from status calls _ small

responses_from :
    (calls : List (ℕ × Record)) (r : Recorder)
    → r.responses < 2 ^ 64
    → (record_all calls r).responses ≡ (r.responses + answered calls) % 2 ^ 64
unfolding record_all recorded answered record_request record_response record_blocked
    record_cache_hit record_proxy_error add_uint64
responses_from [] r small = omega arith
responses_from ((now, request) ∷ calls) r small = responses_from calls _ small
responses_from ((now, response s bytes duration) ∷ calls) r small =
    advance true r.responses _ (answered calls) _ refl
      (responses_from calls (record_response now s bytes duration r)) small
responses_from ((now, block why) ∷ calls) r small = responses_from calls _ small
responses_from ((now, cache_hit) ∷ calls) r small = responses_from calls _ small
responses_from ((now, proxy_error err) ∷ calls) r small = responses_from calls _ small

blocks_from :
    (reason : Bytes) (calls : List (ℕ × Record)) (r : Recorder)
    → count_of reason r.blocks < 2 ^ 64
    → count_of reason (record_all calls r).blocks
      ≡ (count_of reason r.blocks + turned_away reason calls) % 2 ^ 64
unfolding record_all recorded turned_away record_request record_response record_blocked
    record_cache_hit record_proxy_error
blocks_from reason [] r small = omega arith
blocks_from reason ((now, request) ∷ calls) r small = blocks_from reason calls _ small
blocks_from reason ((now, response s bytes duration) ∷ calls) r small =
    blocks_from reason calls _ small
blocks_from reason ((now, block why) ∷ calls) r small =
    advance (block_reason why == reason) _ _ (turned_away reason calls) _
      (count_of-increment (block_reason why) reason r.blocks)
      (blocks_from reason calls (record_blocked why r)) small
blocks_from reason ((now, cache_hit) ∷ calls) r small = blocks_from reason calls _ small
blocks_from reason ((now, proxy_error err) ∷ calls) r small = blocks_from reason calls _ small

-- From a new recorder, `responses` counts the responses, the table of statuses those of each status,
-- and the table of blocks those turned away for each reason, all of them modulo 2 ^ 64.
pub record_all-counts :
    (calls : List (ℕ × Record)) (status : ℕ) (reason : Bytes)
    → let r = record_all calls new_recorder in
      (r.responses ≡ answered calls % 2 ^ 64)
      × (count_of status r.statuses ≡ answered_with status calls % 2 ^ 64)
      × (count_of reason r.blocks ≡ turned_away reason calls % 2 ^ 64)
unfolding count_of lookup
record_all-counts calls status reason = (
  omega (arith, responses_from calls new_recorder (omega arith)),
  omega (arith, statuses_from status calls new_recorder (omega arith)),
  omega (arith, blocks_from reason calls new_recorder (omega arith)),
)

-- ===== src/Traffic/Rate.antt =====
-- How many requests a bucket of `RateLimiter` of internal/traffic/limiter.go lets through.
use netgoat.Prelude.{
  refl, false, ℕ, ◌+◌, ◌-◌, ◌*◌, ◌≤◌, ◌≡◌, sym, ap, ◌∙◌, List, [], ◌∷◌, if◌then◌else◌, ltb, arith,
  Bool-cases, All, inl, inr,
}
use native.Mathlib.Nat.{add-mul, mul-le-mul_right}
use netgoat.Traffic.Limiter.{token, RateBucket, refill, take_token}

-- A bucket under a sequence of requests for its key, at any times: the number let through, and the
-- bucket.
unfoldable pub take_tokens : ℕ → ℕ → List ℕ → RateBucket → ℕ × RateBucket
take_tokens rate burst [] b = (0, b)
take_tokens rate burst (now ∷ times) b =
    let (b', allowed) = take_token (refill rate burst now b) in
    let (n, b'') = take_tokens rate burst times b' in (if allowed then n + 1 else n, b'')

distrib : (a b r : ℕ) → b ≤ a → (a - b) * r + b * r ≡ a * r
distrib a b r h =
    let back : (a - b) + b ≡ a = omega (arith, h) in
    sym (add-mul (a - b) b r) ∙ ap (λ x. x * r) back

refill_lem :
    (rate burst now : ℕ) (b : RateBucket)
    → ((refill rate burst now b).tokens + b.last * rate
        ≤ b.tokens + (refill rate burst now b).last * rate)
      × (b.last ≤ (refill rate burst now b).last)
unfolding refill
refill_lem rate burst now b = elim (Bool-cases (ltb b.last now)) [
  | inl e ↦ let more = distrib now b.last rate (ground (arith, e)) in ground (arith, more, e)
  | inr e ↦ ground (arith, e)
]

take_token_lem :
    (b : RateBucket)
    → ((if (take_token b).1 then token else 0) + (take_token b).0.tokens ≡ b.tokens)
      × ((take_token b).0.last ≡ b.last)
unfolding take_token
take_token_lem b = elim (Bool-cases (ltb b.tokens token)) [
  | inl e ↦ ground (arith, e)
  | inr e ↦ ground (arith, e)
]

take_tokens_lem :
    (rate burst : ℕ) (times : List ℕ) (b : RateBucket)
    → ((take_tokens rate burst times b).0 * token
          + (take_tokens rate burst times b).1.tokens
          + b.last * rate
        ≤ b.tokens + (take_tokens rate burst times b).1.last * rate)
unfolding take_tokens
take_tokens_lem rate burst [] b = omega arith
take_tokens_lem rate burst (now ∷ times) b =
    let r = refill rate burst now b in
    let (filled, later) = refill_lem rate burst now b in
    let (taken, same) = take_token_lem r in
    let rest = take_tokens_lem rate burst times (take_token r).0 in
    ground (arith, filled, taken, ap (λ x. x * rate) same, rest)

take_tokens_last :
    (rate burst t : ℕ) (times : List ℕ) (b : RateBucket)
    → All (λ now. now ≤ t) times
    → b.last ≤ t
    → (take_tokens rate burst times b).1.last ≤ t
unfolding take_tokens
take_tokens_last rate burst t [] b h old = old
take_tokens_last rate burst t (now ∷ times) b (p, h) old =
    take_tokens_last rate burst t times (take_token (refill rate burst now b)).0 h
      (unfold refill take_token in ground (arith, p, old))

take_tokens_since :
    (rate burst t : ℕ) (times : List ℕ) (b : RateBucket)
    → b.tokens ≤ burst
    → b.last ≤ t
    → All (λ now. now ≤ t) times
    → (take_tokens rate burst times b).0 * token ≤ burst + (t - b.last) * rate
take_tokens_since rate burst t times b full old h =
    let spent = take_tokens_lem rate burst times b in
    let end = take_tokens_last rate burst t times b h old in
    let grown : (take_tokens rate burst times b).1.last * rate ≤ t * rate =
      mul-le-mul_right rate end in
    omega (arith, spent, grown, full, distrib t b.last rate old)

All-upper :
    (u t : ℕ) (times : List ℕ)
    → All (λ now. (u ≤ now) × (now ≤ t)) times
    → All (λ now. now ≤ t) times
All-upper u t [] h = tt
All-upper u t (now ∷ times) ((low, high), h) = (high, All-upper u t times h)

-- Filling up leaves at most the burst, and a second time at the same moment adds nothing.
refill_full :
    (rate burst now : ℕ) (b : RateBucket)
    → b.tokens ≤ burst
    → ((refill rate burst now b).tokens ≤ burst)
      × (now ≤ (refill rate burst now b).last)
      × (refill rate burst now (refill rate burst now b) ≡ refill rate burst now b)
unfolding refill
refill_full rate burst now b full = elim (Bool-cases (ltb b.last now)) [
  | inl e ↦
      let later : ltb now now ≡ false = ground arith in
      (ground (arith, e), ground (arith, e), rw (e, later) refl)
  | inr e ↦ (ground (arith, e, full), ground (arith, e), rw (e, e) refl)
]

-- From a time `u` to a time `t` a bucket with at most its burst lets through no more than the burst
-- and what its rate adds from `u` to `t`, however long it has stood idle before `u`, and even if the
-- clock steps back in between.
pub take_tokens_bound :
    (rate burst u t : ℕ) (times : List ℕ) (b : RateBucket)
    → b.tokens ≤ burst
    → b.last ≤ t
    → All (λ now. (u ≤ now) × (now ≤ t)) times
    → (take_tokens rate burst times b).0 * token ≤ burst + (t - u) * rate
unfolding take_tokens
take_tokens_bound rate burst u t [] b full old h = omega arith
take_tokens_bound rate burst u t (now ∷ times) b full old ((low, high), h) =
    let r = refill rate burst now b in
    let (capped, after, again) = refill_full rate burst now b full in
    let reached : r.last ≤ t = unfold refill in ground (arith, high, old) in
    let same : (take_tokens rate burst (now ∷ times) r).0
        ≡ (take_tokens rate burst (now ∷ times) b).0 =
      ap
        (λ x.
          (if (take_token x).1
            then (take_tokens rate burst times (take_token x).0).0 + 1
            else (take_tokens rate burst times (take_token x).0).0))
        again in
    let since =
      take_tokens_since rate burst t (now ∷ times) r capped reached (high, All-upper u t times h) in
    let window : (t - r.last) * rate ≤ (t - u) * rate =
      mul-le-mul_right rate (omega (arith, after, low)) in
    omega (arith, since, window, ap (λ n. n * token) same)

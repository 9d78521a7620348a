-- ===== src/Traffic/Bandwidth.antt =====
-- `Wait` and `reserve` of internal/traffic/bandwidth.go for one key: a transfer waits until its
-- bucket has the bytes. A byte has 10 ^ 9 parts, so that a rate of n bytes a second adds n parts a
-- nanosecond; the source counts in float64.
use netgoat.Prelude.{
  ℕ, zero, suc, ◌+◌, ◌-◌, ◌*◌, ◌/◌, ◌%◌, ◌^◌, ◌≤◌, ◌<◌, ◌≡◌, refl, List, [], ◌∷◌, if◌then◌else◌,
  ltb, leb, arith, Bool-cases, inl, inr, ◌⊎◌, All,
}
use native.Mathlib.Nat.{add-mul, div-add-mod, mul_comm}

abbrev pub byte : ℕ
byte = 10 ^ 9

pub record Bucket : Type 0 where
  pub tokens : ℕ
  pub last : ℕ

-- The part of `reserve` after the bucket is found: the bucket, and how long to wait.
unfoldable pub fill : ℕ → ℕ → ℕ → Bucket → Bucket
fill rate burst now b =
    if ltb b.last now
    then (let tokens = b.tokens + (now - b.last) * rate in
        record { tokens = if ltb burst tokens then burst else tokens; last = now })
    else b

unfoldable pub take_bytes : ℕ → ℕ → Bucket → Bucket × ℕ
take_bytes rate bytes b =
    let need = bytes * byte in
    if leb need b.tokens
    then (record b { tokens = b.tokens - need }, 0)
    else (b, (need - b.tokens) / rate + 10 ^ 6)

unfoldable pub reserve : ℕ → ℕ → ℕ → ℕ → Bucket → Bucket × ℕ
reserve rate burst bytes now b = take_bytes rate bytes (fill rate burst now b)

-- The loop of `Wait`: the sizes that it asks for, one after the other; `burst` is in bytes.
unfoldable pub chunks : ℕ → ℕ → ℕ → List ℕ
chunks burst zero remaining = []
chunks burst (suc fuel) remaining =
    let chunk = if ltb burst remaining then burst else remaining in
    let rest = chunks burst fuel (remaining - chunk) in if ltb 0 remaining then chunk ∷ rest else []

unfoldable pub sum : List ℕ → ℕ
sum [] = 0
sum (n ∷ ns) = n + sum ns

chunks_lem :
    (burst fuel remaining : ℕ)
    → 0 < burst
    → remaining ≤ fuel
    → (sum (chunks burst fuel remaining) ≡ remaining)
      × All (λ n. n ≤ burst) (chunks burst fuel remaining)
unfolding chunks sum
chunks_lem burst zero remaining some_burst enough = (omega arith, tt)
chunks_lem burst (suc fuel) remaining some_burst enough = elim (Bool-cases (ltb 0 remaining)) [
  | inl e ↦ elim (Bool-cases (ltb burst remaining)) [
    | inl more ↦
        let (total, bounded) =
          chunks_lem burst fuel (remaining - burst) some_burst (ground (arith, more, enough)) in
        rw (e, more) (ground (arith, total, more), (omega arith, bounded))
    | inr last ↦
        let (total, bounded) =
          chunks_lem burst fuel (remaining - remaining) some_burst (ground arith) in
        rw (e, last) (ground (arith, total), (ground (arith, last), bounded))
  ]
  | inr e ↦ rw e (ground (arith, e), tt)
]

waited_enough : (d r : ℕ) → 0 < r → d ≤ (d / r + 10 ^ 6) * r
waited_enough d r h =
    let q = div-add-mod d r in
    let small : d % r < r = omega (arith, h) in
    let swap = mul_comm r (d / r) in
    let parts = add-mul (d / r) (10 ^ 6) r in omega (arith, q, small, swap, parts)

fill_last : (rate burst now : ℕ) (b : Bucket) → b.last ≤ now → (fill rate burst now b).last ≡ now
unfolding fill
fill_last rate burst now b old = ground (arith, old)

fill_enough :
    (rate burst need now : ℕ) (b : Bucket)
    → need ≤ burst
    → b.last < now
    → need ≤ b.tokens + (now - b.last) * rate
    → need ≤ (fill rate burst now b).tokens
unfolding fill
fill_enough rate burst need now b fits old enough = ground (arith, fits, old, enough)

take_bytes_enough :
    (rate bytes : ℕ) (b : Bucket) → bytes * byte ≤ b.tokens → (take_bytes rate bytes b).1 ≡ 0
unfolding take_bytes
take_bytes_enough rate bytes b enough = ground (arith, enough)

-- A transfer that is told to wait gets its bytes when it has waited: unless another transfer of the
-- same key takes them, it waits at most once. The clock has not stepped back, and the transfer asks
-- for no more than the burst.
pub reserve_after_wait :
    (rate burst bytes now : ℕ) (b : Bucket)
    → 0 < rate
    → bytes * byte ≤ burst
    → b.last ≤ now
    → ((reserve rate burst bytes now b).1 ≡ 0)
      ⊎ ((reserve rate burst bytes
            (now + (reserve rate burst bytes now b).1)
            (reserve rate burst bytes now b).0).1
          ≡ 0)
unfolding reserve take_bytes
reserve_after_wait rate burst bytes now b h fits old =
    let r = fill rate burst now b in
    let need = bytes * byte in
    elim (Bool-cases (leb need r.tokens)) [
      | inl e ↦ inl (rw e refl)
      | inr e ↦
          let wait = (need - r.tokens) / rate + 10 ^ 6 in
          let at = fill_last rate burst now b old in
          let enough = waited_enough (need - r.tokens) rate h in
          let since : now + wait - r.last ≡ wait = omega (arith, at) in
          let gained : need ≤ r.tokens + (now + wait - r.last) * rate =
            rw since (omega (arith, enough)) in
          inr (
            rw e (
              take_bytes_enough rate bytes (fill rate burst (now + wait) r)
                (fill_enough rate burst need (now + wait) r fits (omega (arith, at)) gained)))
    ]

-- The sizes that `Wait` asks for add up to the transfer, and none is more than the burst.
sum-chunks :
    (burst bytes : ℕ)
    → 0 < burst
    → (sum (chunks burst bytes bytes) ≡ bytes) × All (λ n. n ≤ burst) (chunks burst bytes bytes)
sum-chunks burst bytes some_burst = chunks_lem burst bytes bytes some_burst (omega arith)

-- ===== src/Agent/Lifetime.antt =====
-- `sharedCacheTTL` of main.go: how long a shared response may be kept. A `time.Duration` is a signed
-- number of 64 bits, and a product that does not fit wraps around.
use netgoat.Prelude.{
  ℕ, zero, suc, ◌+◌, ◌-◌, ◌*◌, ◌^◌, ◌<◌, ◌≡◌, refl, Bool, true, false, ◌&&◌, Bool-cases, inl, inr,
  Option, none, some, List, [], ◌∷◌, if◌then◌else◌, ◌==◌, nat_eq, ltb, leb, ℤ, pos, negsuc, arith,
}
use netgoat.Std.Int64.{int64_of, int64_of_small, int64_of_large}
use netgoat.Std.Text.{Bytes, bytes_eq, codes, cut, split, trim, trim_space, equal_fold}

unfoldable pub parse_digits : ℕ → Bytes → Option ℕ
parse_digits n [] = some n
parse_digits n (c ∷ s) =
    let rest = parse_digits (n * 10 + (c - b'0')) s in
    if leb b'0' c && leb c b'9' then rest else none

-- A number with digits, without its sign.
unfoldable pub parse_unsigned : Bytes → Option ℕ
parse_unsigned [] = none
parse_unsigned (c ∷ s) = parse_digits 0 (c ∷ s)

unfoldable pub positive : Option ℕ → Option ℤ
positive none = none
positive (some n) = if ltb n (2 ^ 63) then some (pos n) else none

unfoldable pub negative : Option ℕ → Option ℤ
negative none = none
negative (some zero) = some (pos 0)
negative (some (suc n)) = if ltb n (2 ^ 63) then some (negsuc n) else none

-- `strconv.ParseInt(s, 10, 64)`
unfoldable pub parse_int : Bytes → Option ℤ
parse_int [] = none
parse_int (c ∷ s) =
    if c == b'-'
    then negative (parse_unsigned s)
    else if c == b'+'
    then positive (parse_unsigned s)
    else positive (parse_unsigned (c ∷ s))

unfoldable pub less : ℤ → ℕ → Bool
less (pos n) m = ltb n m
less (negsuc n) m = true

-- The value of the first directive with the name.
unfoldable pub find_lifetime : Bytes → List Bytes → Option (Option ℤ)
find_lifetime preferred [] = none
find_lifetime preferred (part ∷ parts) =
    let rest = find_lifetime preferred parts in
    elim (cut b'=' (trim_space part)) [
      | none ↦ rest
      | some (name, value) ↦
          if equal_fold name preferred
          then some (parse_int (trim (λ c. c == b'"') (trim_space value)))
          else rest
    ]

unfoldable pub declared : Bytes → Option (Option ℤ)
declared cache_control =
    let parts = split b',' cache_control in
    elim (find_lifetime (codes "s-maxage") parts) [
      | some value ↦ some value
      | none ↦ find_lifetime (codes "max-age") parts
    ]

unfoldable pub ttl_of : Option ℤ → ℕ → ℤ × Bool
ttl_of none maximum = (pos 0, false)
ttl_of (some (negsuc n)) maximum = (pos 0, false)
ttl_of (some (pos zero)) maximum = (pos 0, false)
ttl_of (some (pos (suc n))) maximum =
    let ttl = int64_of (suc n * 10 ^ 9) in
    if less ttl maximum then (ttl, true) else (pos maximum, true)

unfoldable pub shared_cache_ttl : Bytes → ℤ → ℤ × Bool
shared_cache_ttl cache_control (negsuc n) = (pos 0, false)
shared_cache_ttl cache_control (pos zero) = (pos 0, false)
shared_cache_ttl cache_control (pos (suc m)) = elim (declared cache_control) [
  | none ↦ (pos (suc m), true)
  | some value ↦ ttl_of value (suc m)
]

abbrev pub shorter : ℕ → ℕ → ℕ
shorter n m = if ltb n m then n else m

choose :
    (n m : ℕ)
    → Path (ℤ × Bool) (if ltb n m then (pos n, true) else (pos m, true)) (pos (shorter n m), true)
choose n m = elim (Bool-cases (ltb n m)) [ inl e ↦ rw e refl | inr e ↦ rw e refl ]

-- A positive lifetime that is declared is kept up to the maximum, as long as its nanoseconds fit
-- into 63 bits; from there on, while they fit into 64 bits, a negative one comes out.
pub shared_cache_ttl-declared :
    (cache_control : Bytes) (s m : ℕ)
    → declared cache_control ≡ some (some (pos (suc s)))
    → suc s * 10 ^ 9 < 2 ^ 64
    → shared_cache_ttl cache_control (pos (suc m)) ≡ (
      if ltb (suc s * 10 ^ 9) (2 ^ 63)
          then pos (shorter (suc s * 10 ^ 9) (suc m))
          else negsuc (2 ^ 64 - 1 - suc s * 10 ^ 9),
      true,
    )
unfolding shared_cache_ttl ttl_of less
shared_cache_ttl-declared cache_control s m value fits =
    rw (value, shared_cache_ttl)
      (elim (Bool-cases (ltb (suc s * 10 ^ 9) (2 ^ 63))) [
        | inl small ↦
            rw (int64_of_small (suc s * 10 ^ 9) (ground arith))
              (rw small (choose (suc s * 10 ^ 9) (suc m)))
        | inr large ↦ rw (int64_of_large (suc s * 10 ^ 9) (ground arith) fits) (rw large refl)
      ])

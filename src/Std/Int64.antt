-- ===== src/Std/Int64.antt =====
-- Signed numbers of 64 bits, as Go's `int64` and `time.Duration` are: a result that does not fit wraps
-- around.
use netgoat.Prelude.{
  ℕ, ◌-◌, ◌*◌, ◌%◌, ◌^◌, ◌≤◌, ◌<◌, ◌≡◌, refl, Bool, true, false, if◌then◌else◌, ltb, arith, ℤ, pos,
  negsuc,
}

-- The signed number that 64 bits stand for.
unfoldable pub int64_of : ℕ → ℤ
int64_of n = let m = n % 2 ^ 64 in if ltb m (2 ^ 63) then pos m else negsuc (2 ^ 64 - 1 - m)

-- `n * 2` of a number of 64 bits.
unfoldable pub twice : ℤ → ℤ
twice (pos n) = int64_of (n * 2)
twice (negsuc n) = int64_of ((2 ^ 64 - 1 - n) * 2)

-- `m < n`
unfoldable pub less_int : ℤ → ℤ → Bool
less_int (pos m) (pos n) = ltb m n
less_int (pos m) (negsuc n) = false
less_int (negsuc m) (pos n) = true
less_int (negsuc m) (negsuc n) = ltb n m

pub int64_of_small : (n : ℕ) → n < 2 ^ 63 → int64_of n ≡ pos n
unfolding int64_of
int64_of_small n small =
    let whole : n % 2 ^ 64 ≡ n = omega (arith, small) in
    let fits : ltb n (2 ^ 63) ≡ true = ground arith in rw whole (rw fits refl)

pub int64_of_large : (n : ℕ) → 2 ^ 63 ≤ n → n < 2 ^ 64 → int64_of n ≡ negsuc (2 ^ 64 - 1 - n)
unfolding int64_of
int64_of_large n large small =
    let whole : n % 2 ^ 64 ≡ n = omega (arith, small) in
    let over : ltb n (2 ^ 63) ≡ false = ground arith in rw whole (rw over refl)

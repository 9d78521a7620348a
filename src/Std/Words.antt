-- ===== src/Std/Words.antt =====
-- What the program calls of `strings` and `strconv` to print: words, joining them, and numbers.
use netgoat.Prelude.{
  ap, ◌≤◌, Bool-cases, inl, inr, arith, ℕ, zero, suc, true, ◌+◌, ◌/◌, ◌%◌, ◌≡◌, refl, List, [], ◌∷◌,
  ◌++◌, map, if◌then◌else◌, ltb, length,
}
use netgoat.Std.Text.{Bytes, codes, is_space, split}
use netgoat.Std.Sort.{keep}

-- `strings.Fields`: the runs of bytes that are no white space.
unfoldable pub fields : Bytes → List Bytes
fields s =
    keep (λ word. ltb 0 (length word)) (split b' ' (map (λ c. if is_space c then b' ' else c) s))

unfoldable pub join : Bytes → List Bytes → Bytes
join sep [] = []
join sep (word ∷ []) = word
join sep (word ∷ next ∷ words) = word ++ sep ++ join sep (next ∷ words)

-- The digits of a number below `10 ^ (fuel + 1)`.
unfoldable pub digits : ℕ → ℕ → Bytes
digits zero n = (b'0' + n) ∷ []
digits (suc fuel) n =
    let rest = digits fuel (n / 10) in
    if ltb n 10 then (b'0' + n) ∷ [] else rest ++ (b'0' + n % 10) ∷ []

-- `strconv.Itoa` of a number that is not negative.
unfoldable pub itoa : ℕ → Bytes
itoa n = digits n n

-- More fuel than the number changes nothing.
digits_enough : (fuel n : ℕ) → n ≤ fuel → digits (suc fuel) n ≡ digits fuel n
unfolding digits
digits_enough zero n small = let nothing : ltb n 10 ≡ true = ground arith in rw nothing refl
digits_enough (suc fuel) n small = elim (Bool-cases (ltb n 10)) [
  | inl one ↦ rw one refl
  | inr more ↦
      let less : n / 10 ≤ fuel = ground (arith, small, more) in
      rw more (ap (λ rest. rest ++ (b'0' + n % 10) ∷ []) (digits_enough fuel (n / 10) less))
]

words_joined : join (codes " ") (fields (codes "  dial\ttcp \n")) ≡ codes "dial tcp"
unfolding join fields keep split is_space
words_joined = refl

status_text : itoa 502 ≡ codes "502"
unfolding itoa digits
status_text = refl

-- ===== src/Std/Text.antt =====
-- Go strings as lists of bytes, and the functions of `strings` that the program calls. Letters
-- change case in ASCII only: the bytes from 128 on are left as they are.
use Prim.Native.Char.{code}
use Prim.Native.String.{String}
use netgoat.Prelude.{
  ℕ, ◌+◌, ◌-◌, ◌≡◌, refl, ◌↔◌, Bool, true, false, ◌&&◌, ◌||◌, List, [], ◌∷◌, map, arith, Eq, ◌==◌,
  nat_eq, leb, if◌then◌else◌, nat_beq_iff, nat_beq, Option, none, some,
}

abbrev pub Bytes : Type 0
Bytes = List ℕ

-- The bytes of an ASCII literal.
abbrev pub codes : String → Bytes
codes String.[] = []
codes (String.◌∷◌ c s) = code c ∷ codes s

unfoldable pub bytes_beq : Bytes → Bytes → Bool
bytes_beq [] [] = true
bytes_beq (a ∷ s) (b ∷ t) = nat_beq a b && bytes_beq s t
bytes_beq _ _ = false

bytes_eq_of_beq : (s t : Bytes) → bytes_beq s t ≡ true → s ≡ t
unfolding bytes_beq
bytes_eq_of_beq [] [] h = refl
bytes_eq_of_beq (a ∷ s) (b ∷ t) h =
    cc ((nat_beq_iff a b).0 (ground arith), bytes_eq_of_beq s t (ground arith))
bytes_eq_of_beq [] (b ∷ t) h = cc
bytes_eq_of_beq (a ∷ s) [] h = cc

pub bytes_beq_refl : (s : Bytes) → bytes_beq s s ≡ true
unfolding bytes_beq
bytes_beq_refl [] = refl
bytes_beq_refl (a ∷ s) = ground (arith, bytes_beq_refl s)

pub bytes_beq_iff : (s t : Bytes) → (bytes_beq s t ≡ true) ↔ (s ≡ t)
bytes_beq_iff s t = (bytes_eq_of_beq s t, λ e. rw e (bytes_beq_refl t))

instance abbrev pub bytes_eq : Eq Bytes
bytes_eq = record { beq = bytes_beq; beq_iff = bytes_beq_iff }

unfoldable pub lower_byte : ℕ → ℕ
lower_byte c = if leb b'A' c && leb c b'Z' then c + 32 else c

unfoldable pub upper_byte : ℕ → ℕ
upper_byte c = if leb b'a' c && leb c b'z' then c - 32 else c

unfoldable pub to_lower : Bytes → Bytes
unfolding lower_byte
to_lower = map lower_byte

unfoldable pub to_upper : Bytes → Bytes
unfolding upper_byte
to_upper = map upper_byte

unfoldable pub has_prefix : Bytes → Bytes → Bool
has_prefix s [] = true
has_prefix [] (p ∷ ps) = false
has_prefix (c ∷ s) (p ∷ ps) = c == p && has_prefix s ps

-- What `strings.TrimPrefix` leaves.
unfoldable pub trim_prefix : Bytes → Bytes → Bytes
trim_prefix s [] = s
trim_prefix [] (p ∷ ps) = []
trim_prefix (c ∷ s) (p ∷ ps) = if has_prefix (c ∷ s) (p ∷ ps) then trim_prefix s ps else c ∷ s

unfoldable pub contains : Bytes → Bytes → Bool
unfolding has_prefix
contains [] p = has_prefix [] p
contains (c ∷ s) p = has_prefix (c ∷ s) p || contains s p

-- The bytes without a leading run that the test accepts.
unfoldable pub trim_left : (ℕ → Bool) → Bytes → Bytes
trim_left p [] = []
trim_left p (c ∷ s) = if p c then trim_left p s else c ∷ s

-- The bytes without a trailing run that the test accepts.
unfoldable pub trim_right : (ℕ → Bool) → Bytes → Bytes
trim_right p [] = []
trim_right p (c ∷ s) = elim (trim_right p s) [ [] ↦ if p c then [] else c ∷ [] | d ∷ r ↦ c ∷ d ∷ r ]

unfoldable pub trim : (ℕ → Bool) → Bytes → Bytes
unfolding trim_left trim_right
trim p s = trim_right p (trim_left p s)

unfoldable pub is_space : ℕ → Bool
is_space c = c == b' ' || (leb 9 c && leb c 13)

unfoldable pub trim_space : Bytes → Bytes
unfolding trim is_space
trim_space = trim is_space

-- `strings.Split(s, sep)` at a separator of one byte; never empty.
unfoldable pub split : ℕ → Bytes → List Bytes
split sep [] = [] ∷ []
split sep (c ∷ s) = elim (split sep s) [
  | [] ↦ (c ∷ []) ∷ []
  | part ∷ parts ↦ if c == sep then [] ∷ part ∷ parts else (c ∷ part) ∷ parts
]

-- `strings.Cut(s, sep)` at a separator of one byte: what stands before and after it.
unfoldable pub cut : ℕ → Bytes → Option (Bytes × Bytes)
cut sep [] = none
cut sep (c ∷ s) =
    if c == sep
    then some ([], s)
    else elim (cut sep s) [ none ↦ none | some (before, after) ↦ some (c ∷ before, after) ]

unfoldable pub equal_fold : Bytes → Bytes → Bool
unfolding to_lower bytes_beq
equal_fold s t = to_lower s == to_lower t

greeting : trim_space (codes " Hi there\n") ≡ codes "Hi there"
unfolding trim_space
greeting = refl

header_cut : cut b'=' (codes "for=a=b") ≡ some (codes "for", codes "a=b")
unfolding cut
header_cut = refl

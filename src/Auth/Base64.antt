-- ===== src/Auth/Base64.antt =====
-- `base64.StdEncoding`, by groups of four letters.
use netgoat.Prelude.{
  ℕ, ◌+◌, ◌-◌, ◌*◌, ◌/◌, ◌%◌, ◌<◌, ◌≡◌, refl, ◌∙◌, Bool, true, false, not, ◌&&◌, ◌||◌, Option, none,
  some, [], ◌∷◌, ◌++◌, if◌then◌else◌, ◌==◌, nat_eq, leb, ltb, ◌>>=◌, arith, All,
}
use netgoat.Std.Text.{Bytes}
use netgoat.Std.Sort.{keep}

unfoldable pub letter : ℕ → ℕ
letter v =
    if ltb v 26
    then v + b'A'
    else if ltb v 52
    then v - 26 + b'a'
    else if ltb v 62
    then v - 52 + b'0'
    else if v == 62
    then b'+'
    else b'/'

unfoldable pub letter_value : ℕ → Option ℕ
letter_value c =
    if leb b'A' c && leb c b'Z'
    then some (c - b'A')
    else if leb b'a' c && leb c b'z'
    then some (c - b'a' + 26)
    else if leb b'0' c && leb c b'9'
    then some (c - b'0' + 52)
    else if c == b'+'
    then some 62
    else if c == b'/'
    then some 63
    else none

unfoldable pub encode : Bytes → Bytes
encode [] = []
encode (a ∷ []) = letter (a / 4) ∷ letter (a % 4 * 16) ∷ b'=' ∷ b'=' ∷ []
encode (a ∷ b ∷ []) =
    letter (a / 4) ∷ letter (a % 4 * 16 + b / 16) ∷ letter (b % 16 * 4) ∷ b'=' ∷ []
encode (a ∷ b ∷ c ∷ s) =
    letter (a / 4)
    ∷ letter (a % 4 * 16 + b / 16)
    ∷ letter (b % 16 * 4 + c / 64)
    ∷ letter (c % 64)
    ∷ encode s

-- The last group may be padded; no group stands behind a padded one.
unfoldable pub last_group : ℕ → ℕ → ℕ → ℕ → Option Bytes
last_group w x y z = letter_value w >>= λ p. letter_value x >>= λ q.
    if y == b'=' && z == b'='
    then some ((p * 4 + q / 16) ∷ [])
    else letter_value y >>= λ r.
        if z == b'='
        then some ((p * 4 + q / 16) ∷ (q % 16 * 16 + r / 4) ∷ [])
        else letter_value z >>= λ t.
            some ((p * 4 + q / 16) ∷ (q % 16 * 16 + r / 4) ∷ (r % 4 * 64 + t) ∷ [])

unfoldable pub full_group : ℕ → ℕ → ℕ → ℕ → Option Bytes
full_group w x y z = letter_value w >>= λ p. letter_value x >>= λ q. letter_value y >>= λ r.
    letter_value z >>= λ t. some ((p * 4 + q / 16) ∷ (q % 16 * 16 + r / 4) ∷ (r % 4 * 64 + t) ∷ [])

unfoldable pub decode_groups : Bytes → Option Bytes
decode_groups [] = some []
decode_groups (w ∷ []) = none
decode_groups (w ∷ x ∷ []) = none
decode_groups (w ∷ x ∷ y ∷ []) = none
decode_groups (w ∷ x ∷ y ∷ z ∷ []) = last_group w x y z
decode_groups (w ∷ x ∷ y ∷ z ∷ c ∷ s) =
    let rest = decode_groups (c ∷ s) in full_group w x y z >>= λ g. rest >>= λ r. some (g ++ r)

unfoldable pub no_line_end : ℕ → Bool
no_line_end c = not (c == 10 || c == 13)

-- Line ends are ignored.
unfoldable pub decode_string : Bytes → Option Bytes
decode_string s = decode_groups (keep no_line_end s)

letter_value-letter : (v : ℕ) → v < 64 → letter_value (letter v) ≡ some v
unfolding letter_value letter
letter_value-letter v h = ground arith

no_line_end-letter : (v : ℕ) → v < 64 → no_line_end (letter v) ≡ true
unfolding letter no_line_end
no_line_end-letter v h = ground arith

letter-neq : (v : ℕ) → v < 64 → (letter v == b'=') ≡ false
unfolding letter
letter-neq v h = ground arith

abbrev IsLine : Bytes → Type 0
IsLine = All (λ c. no_line_end c ≡ true)

-- Encoding writes no line end.
encode-IsLine : (s : Bytes) → All (λ c. c < 256) s → IsLine (encode s)
unfolding encode no_line_end
encode-IsLine [] h = tt
encode-IsLine (a ∷ []) (ha, _) = (
  no_line_end-letter (a / 4) (omega arith),
  (no_line_end-letter (a % 4 * 16) (omega arith), (refl, (refl, tt))),
)
encode-IsLine (a ∷ b ∷ []) (ha, (hb, _)) = (
  no_line_end-letter (a / 4) (omega arith),
  (
    no_line_end-letter (a % 4 * 16 + b / 16) (omega arith),
    (no_line_end-letter (b % 16 * 4) (omega arith), (refl, tt)),
  ),
)
encode-IsLine (a ∷ b ∷ c ∷ s) (ha, (hb, (hc, h))) = (
  no_line_end-letter (a / 4) (omega arith),
  (
    no_line_end-letter (a % 4 * 16 + b / 16) (omega arith),
    (
      no_line_end-letter (b % 16 * 4 + c / 64) (omega arith),
      (no_line_end-letter (c % 64) (omega arith), encode-IsLine s h),
    ),
  ),
)

keep-all : (s : Bytes) → IsLine s → keep no_line_end s ≡ s
unfolding keep
keep-all [] h = refl
keep-all (c ∷ s) (hc, h) = rw (hc, keep-all s h) refl

last_group_one :
    (a : ℕ) → a < 256 → last_group (letter (a / 4)) (letter (a % 4 * 16)) b'=' b'=' ≡ some (a ∷ [])
unfolding last_group
last_group_one a h =
    let first : a / 4 * 4 + a % 4 * 16 / 16 ≡ a = omega arith in
    rw
      (
        letter_value-letter (a / 4) (omega arith),
        letter_value-letter (a % 4 * 16) (omega arith),
        first,
      )
      refl

last_group_two :
    (a b : ℕ)
    → a < 256
    → b < 256
    → last_group (letter (a / 4)) (letter (a % 4 * 16 + b / 16)) (letter (b % 16 * 4)) b'='
      ≡ some (a ∷ b ∷ [])
unfolding last_group
last_group_two a b h k =
    let v = a % 4 * 16 + b / 16 in
    let first : a / 4 * 4 + (a % 4 * 16 + b / 16) / 16 ≡ a = omega arith in
    let second : (a % 4 * 16 + b / 16) % 16 * 16 + b % 16 * 4 / 4 ≡ b = omega arith in
    rw
      (
        letter-neq (b % 16 * 4) (omega arith),
        letter_value-letter (a / 4) (omega arith),
        letter_value-letter v (omega arith),
        letter_value-letter (b % 16 * 4) (omega arith),
        first,
        second,
      )
      refl

full_group_three :
    (a b c : ℕ)
    → a < 256
    → b < 256
    → c < 256
    → full_group
        (letter (a / 4))
        (letter (a % 4 * 16 + b / 16))
        (letter (b % 16 * 4 + c / 64))
        (letter (c % 64))
      ≡ some (a ∷ b ∷ c ∷ [])
unfolding full_group
full_group_three a b c h k l =
    let first : a / 4 * 4 + (a % 4 * 16 + b / 16) / 16 ≡ a = omega arith in
    let second : (a % 4 * 16 + b / 16) % 16 * 16 + (b % 16 * 4 + c / 64) / 4 ≡ b = omega arith in
    let third : (b % 16 * 4 + c / 64) % 4 * 64 + c % 64 ≡ c = omega arith in
    rw
      (
        letter_value-letter (a / 4) (omega arith),
        letter_value-letter (a % 4 * 16 + b / 16) (omega arith),
        letter_value-letter (b % 16 * 4 + c / 64) (omega arith),
        letter_value-letter (c % 64) (omega arith),
        first,
        second,
        third,
      )
      refl

-- A last group of three bytes is a full one.
last_group-full_group :
    (w x y z : ℕ)
    → y < 64
    → z < 64
    → last_group w x (letter y) (letter z) ≡ full_group w x (letter y) (letter z)
unfolding last_group full_group
last_group-full_group w x y z h k = rw (letter-neq y h, letter-neq z k) refl

encode_more : (a : ℕ) (s : Bytes) → (c : ℕ) × (t : Bytes) × (encode (a ∷ s) ≡ c ∷ t)
unfolding encode
encode_more a [] = (_, _, refl)
encode_more a (b ∷ []) = (_, _, refl)
encode_more a (b ∷ c ∷ s) = (_, _, refl)

decode_groups_more :
    (w x y z : ℕ) (a : ℕ) (s : Bytes) (g : Bytes)
    → full_group w x y z ≡ some g
    → decode_groups (encode (a ∷ s)) ≡ some (a ∷ s)
    → decode_groups (w ∷ x ∷ y ∷ z ∷ encode (a ∷ s)) ≡ some (g ++ a ∷ s)
unfolding decode_groups
decode_groups_more w x y z a s g full rest =
    let (c, t, more) = encode_more a s in
    let rest' : decode_groups (c ∷ t) ≡ some (a ∷ s) = rw more at rest in
    rw (more, full, rest') refl

decode_groups-encode : (s : Bytes) → All (λ c. c < 256) s → decode_groups (encode s) ≡ some s
unfolding encode decode_groups
decode_groups-encode [] h = refl
decode_groups-encode (a ∷ []) (ha, _) = last_group_one a ha
decode_groups-encode (a ∷ b ∷ []) (ha, (hb, _)) = last_group_two a b ha hb
decode_groups-encode (a ∷ b ∷ c ∷ []) (ha, (hb, (hc, _))) =
    last_group-full_group (letter (a / 4)) (letter (a % 4 * 16 + b / 16)) (b % 16 * 4 + c / 64)
      (c % 64) (omega arith) (omega arith)
    ∙ full_group_three a b c ha hb hc
decode_groups-encode (a ∷ b ∷ c ∷ d ∷ s) (ha, (hb, (hc, h))) =
    decode_groups_more (letter (a / 4)) (letter (a % 4 * 16 + b / 16))
      (letter (b % 16 * 4 + c / 64)) (letter (c % 64)) d s (a ∷ b ∷ c ∷ [])
      (full_group_three a b c ha hb hc) (decode_groups-encode (d ∷ s) h)

-- What is encoded is decoded.
pub decode_string-encode : (s : Bytes) → All (λ c. c < 256) s → decode_string (encode s) ≡ some s
unfolding decode_string
decode_string-encode s h = rw (keep-all (encode s) (encode-IsLine s h)) (decode_groups-encode s h)

-- ===== src/ClientIp/Scan.antt =====
-- The byte scanners of internal/clientip/resolver.go: tokens, quoted strings, and the splitting of
-- a header at delimiters outside quotes. An error is `none`.
use netgoat.Prelude.{
  ℕ, Bool, true, false, not, ◌&&◌, ◌||◌, Option, none, some, List, [], ◌∷◌, ◌++◌, ltb, leb,
  if◌then◌else◌, ◌>>=◌, ◌==◌, nat_eq, last?, drop_last,
}
use netgoat.Std.Text.{Bytes, trim}

-- Control characters, but for the tab.
unfoldable pub is_control : ℕ → Bool
is_control c = (ltb c 0x20 && not (c == 9)) || c == 0x7f

unfoldable pub is_ows : ℕ → Bool
is_ows c = c == b' ' || c == 9

unfoldable pub trim_ows : Bytes → Bytes
unfolding is_ows trim
trim_ows = trim is_ows

unfoldable pub is_token_byte : ℕ → Bool
is_token_byte c =
    (leb b'a' c && leb c b'z')
    || (leb b'A' c && leb c b'Z')
    || (leb b'0' c && leb c b'9')
    || c == b'!'
    || c == b'#'
    || c == b'$'
    || c == b'%'
    || c == b'&'
    || c == 39
    || c == b'*'
    || c == b'+'
    || c == b'-'
    || c == b'.'
    || c == b'^'
    || c == b'_'
    || c == b'`'
    || c == b'|'
    || c == b'~'

unfoldable pub all_token : Bytes → Bool
unfolding is_token_byte
all_token [] = true
all_token (c ∷ s) = is_token_byte c && all_token s

unfoldable pub is_token : Bytes → Bool
unfolding all_token
is_token [] = false
is_token (c ∷ s) = all_token (c ∷ s)

unfoldable pub contains_invalid_header_control : Bytes → Bool
unfolding is_control
contains_invalid_header_control [] = false
contains_invalid_header_control (c ∷ s) = is_control c || contains_invalid_header_control s

-- The loop of `splitOutsideQuotes`: `cur` is `value[start:i]`.
pub record Scan : Type 0 where
  pub quoted : Bool
  pub escaped : Bool
  pub cur : Bytes

-- A finished part, trimmed; an empty one is an error.
unfoldable pub finish : Bytes → Option Bytes
finish cur = elim (trim_ows cur) [ [] ↦ none | c ∷ s ↦ some (c ∷ s) ]

-- One round of the loop: the parts that it completes, and the next state.
unfoldable pub scan_byte : ℕ → Scan → ℕ → Option (List Bytes × Scan)
scan_byte delimiter st c =
    if is_control c
    then none
    else if c == 92
    then some (
      [],
      record st {
        escaped = if st.quoted then not st.escaped else st.escaped;
        cur = st.cur ++ c ∷ [];
      },
    )
    else if c == 34
    then some (
      [],
      record {
        quoted = if st.escaped then st.quoted else not st.quoted;
        escaped = false;
        cur = st.cur ++ c ∷ [];
      },
    )
    else if c == delimiter && not st.quoted
    then (finish st.cur >>= λ part.
        some (part ∷ [], record { quoted = st.quoted; escaped = false; cur = [] }))
    else some ([], record { quoted = st.quoted; escaped = false; cur = st.cur ++ c ∷ [] })

unfoldable pub scan : ℕ → Scan → Bytes → Option (List Bytes)
scan delimiter st [] =
    if st.quoted || st.escaped then none else (finish st.cur >>= λ part. some (part ∷ []))
scan delimiter st (c ∷ s) = do
  (parts, st') ← scan_byte delimiter st c
  rest ← scan delimiter st' s
  some (parts ++ rest)

abbrev pub start : Scan
start = record { quoted = false; escaped = false; cur = [] }

unfoldable pub split_outside_quotes : Bytes → ℕ → Option (List Bytes)
split_outside_quotes value delimiter = elim (trim_ows value) [
  | [] ↦ none
  | _ ∷ _ ↦ scan delimiter start value
]

-- The loop of `decodeForwardedValue` over what stands between the quotes; the flag says that the
-- last byte was a backslash that escapes the next.
unfoldable pub decode_inner : Bool → Bytes → Option Bytes
decode_inner true [] = none
decode_inner false [] = some []
decode_inner true (c ∷ s) =
    let rest = (decode_inner false s >>= λ d. some (c ∷ d)) in
    if ltb c 0x20 || c == 0x7f then none else rest
decode_inner false (c ∷ s) =
    let escape = decode_inner true s in
    let rest = (decode_inner false s >>= λ d. some (c ∷ d)) in
    if c == 92 then escape else if ltb c 0x20 || c == 0x7f || c == 34 then none else rest

unfoldable pub decode_forwarded_value : Bytes → Option Bytes
decode_forwarded_value [] = none
decode_forwarded_value (c ∷ s) =
    if not (c == 34) then (if is_token (c ∷ s) then some (c ∷ s) else none) else elim (last? s) [
      | none ↦ none
      | some d ↦ if d == 34 then decode_inner false (drop_last s) else none
    ]

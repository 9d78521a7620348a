-- ===== src/Std/Url.antt =====
-- What the program uses of `net/url`: the decoding of a query.
use netgoat.Prelude.{
  ℕ, ◌+◌, ◌-◌, ◌*◌, ◌≡◌, refl, ◌&&◌, ◌||◌, Option, none, some, List, [], ◌∷◌, ◌++◌, if◌then◌else◌,
  ◌==◌, nat_eq, leb, ◌>>=◌,
}
use netgoat.Std.Dict.{Dict, lookup, insert}
use netgoat.Std.Text.{Bytes, bytes_eq, codes, cut, split}
use netgoat.Std.Search.{has_byte}

unfoldable pub hex_digit : ℕ → Option ℕ
hex_digit c =
    if leb b'0' c && leb c b'9'
    then some (c - b'0')
    else if leb b'a' c && leb c b'f'
    then some (c - b'a' + 10)
    else if leb b'A' c && leb c b'F'
    then some (c - b'A' + 10)
    else none

-- `url.QueryUnescape`
unfoldable pub query_unescape : Bytes → Option Bytes
query_unescape [] = some []
query_unescape (c ∷ []) = if c == b'%' then none else some ((if c == b'+' then b' ' else c) ∷ [])
query_unescape (c ∷ d ∷ []) =
    let rest = query_unescape (d ∷ []) in
    if c == b'%' then none else rest >>= λ r. some ((if c == b'+' then b' ' else c) ∷ r)
query_unescape (c ∷ d ∷ e ∷ s) =
    let escaped = query_unescape s in
    let rest = query_unescape (d ∷ e ∷ s) in
    if c == b'%'
    then (hex_digit d >>= λ hi. hex_digit e >>= λ lo. escaped >>= λ r. some ((hi * 16 + lo) ∷ r))
    else rest >>= λ r. some ((if c == b'+' then b' ' else c) ∷ r)

abbrev pub Values : Type 0
Values = Dict Bytes (List Bytes)

unfoldable pub add_value : Bytes → Bytes → Values → Values
add_value k v values = elim (lookup k values) [
  | none ↦ insert k (v ∷ []) values
  | some vs ↦ insert k (vs ++ v ∷ []) values
]

-- `key=value`, or a key alone; nothing where a part does not decode.
unfoldable pub query_pair : Bytes → Option (Bytes × Bytes)
query_pair part = if part == [] || has_byte b';' part then none else elim (cut b'=' part) [
  | none ↦ query_unescape part >>= λ k. some (k, [])
  | some (key, value) ↦ query_unescape key >>= λ k. query_unescape value >>= λ v. some (k, v)
]

unfoldable pub query_pairs : List Bytes → Values → Values
query_pairs [] values = values
query_pairs (part ∷ parts) values =
    query_pairs parts
      (elim (query_pair part) [ none ↦ values | some (k, v) ↦ add_value k v values ])

-- `URL.Query`: parts that do not decode are left out.
unfoldable pub parse_query : Bytes → Values
parse_query raw = query_pairs (split b'&' raw) []

decoded : query_unescape (codes "a%20b+c") ≡ some (codes "a b c")
unfolding query_unescape hex_digit
decoded = refl

malformed : query_unescape (codes "100%") ≡ none
unfolding query_unescape
malformed = refl

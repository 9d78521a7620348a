-- ===== src/ClientIp/Parse.antt =====
-- The parsers of internal/clientip/resolver.go for addresses and for the two forwarding headers,
-- over the address library of ClientIp/NetIp. An error is `none`.
use netgoat.Prelude.{
  ℕ, ◌+◌, Bool, false, not, ◌&&◌, ◌||◌, Option, none, some, List, [], ◌∷◌, ◌++◌, ltb, leb,
  if◌then◌else◌, ◌>>=◌, ◌==◌, nat_eq, last?, drop_last, length,
}
use netgoat.Std.Text.{Bytes, bytes_eq, codes, split, cut, to_lower}
use netgoat.ClientIp.NetIp.{NetIp}
use netgoat.ClientIp.Scan.{
  trim_ows, is_token, contains_invalid_header_control, split_outside_quotes, decode_forwarded_value,
}

abbrev pub max_forwarded_header_bytes : ℕ
max_forwarded_header_bytes = 8192

abbrev pub max_forwarded_addresses : ℕ
max_forwarded_addresses = 64

unfoldable pub header_size : List Bytes → ℕ
header_size [] = 0
header_size (v ∷ vs) = length v + header_size vs

unfoldable pub seen_name : Bytes → List Bytes → Bool
seen_name name [] = false
seen_name name (n ∷ ns) = n == name || seen_name name ns

-- `value[1 : len(value)-1]` of a text longer than two bytes in square brackets.
unfoldable pub bracketed : Bytes → Option Bytes
bracketed [] = none
bracketed (c ∷ s) = elim (last? s) [
  | none ↦ none
  | some d ↦ if ltb 1 (length s) && c == b'[' && d == b']' then some (drop_last s) else none
]

module _ (n : NetIp) where
  open n use {Addr, parse_addr, parse_addr_port, has_zone, unmap}

  -- An address without a zone, unmapped.
  unfoldable pub accept : Option Addr → Option Addr
  accept none = none
  accept (some a) = if has_zone a then none else some (unmap a)

  unfoldable pub or_else : Option Addr → Option Addr → Option Addr
  or_else (some a) _ = some a
  or_else none o = o

  unfoldable pub parse_trimmed : Bytes → Option Addr
  parse_trimmed [] = none
  parse_trimmed (c ∷ s) = or_else (accept (parse_addr (c ∷ s))) (
      or_else (accept (parse_addr_port (c ∷ s)))
        (bracketed (c ∷ s) >>= λ inner. accept (parse_addr inner)))

  unfoldable pub parse_address : Bytes → Option Addr
  parse_address raw = parse_trimmed (trim_ows raw)

  -- A loop that parses each element and stops at the first error, or once the chain is full.
  unfoldable pub collect : (Bytes → Option Addr) → List Addr → List Bytes → Option (List Addr)
  collect parse chain [] = some chain
  collect parse chain (raw ∷ raws) =
      if leb max_forwarded_addresses (length chain)
      then none
      else (parse raw >>= λ addr. collect parse (chain ++ addr ∷ []) raws)

  unfoldable pub non_empty : List Addr → Option (List Addr)
  non_empty [] = none
  non_empty (a ∷ chain) = some (a ∷ chain)

  unfoldable pub x_forwarded_for_values : List Addr → List Bytes → Option (List Addr)
  x_forwarded_for_values chain [] = some chain
  x_forwarded_for_values chain (value ∷ values) =
      if contains_invalid_header_control value
      then none
      else (collect parse_address chain (split b',' value) >>= λ longer.
          x_forwarded_for_values longer values)

  unfoldable pub parse_x_forwarded_for : List Bytes → Option (List Addr)
  parse_x_forwarded_for values =
      if ltb max_forwarded_header_bytes (header_size values)
      then none
      else (x_forwarded_for_values [] values >>= non_empty)

  -- The loop of `forwardedForAddress` over the parameters: the names seen and the value of `for`.
  unfoldable pub parameters_loop : List Bytes → Bytes → List Bytes → Option Bytes
  parameters_loop seen for_value [] = some for_value
  parameters_loop seen for_value (parameter ∷ parameters) = do
    (raw_name, raw_value) ← cut b'=' (trim_ows parameter)
    let name = to_lower (trim_ows raw_name)
    let value = trim_ows raw_value
    if not (is_token name) || value == [] || seen_name name seen
        then none
        else (decode_forwarded_value value >>= λ decoded.
            parameters_loop (name ∷ seen) (if name == codes "for" then decoded else for_value)
              parameters)

  unfoldable pub forwarded_for_address : Bytes → Option Addr
  forwarded_for_address element = do
    parameters ← split_outside_quotes element b';'
    for_value ← parameters_loop [] [] parameters
    if for_value == [] then none else parse_address for_value

  unfoldable pub forwarded_values : List Addr → List Bytes → Option (List Addr)
  forwarded_values chain [] = some chain
  forwarded_values chain (value ∷ values) = do
    elements ← split_outside_quotes value b','
    longer ← collect forwarded_for_address chain elements
    forwarded_values longer values

  unfoldable pub parse_forwarded : List Bytes → Option (List Addr)
  parse_forwarded values =
      if ltb max_forwarded_header_bytes (header_size values)
      then none
      else (forwarded_values [] values >>= non_empty)

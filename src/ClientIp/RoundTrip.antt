-- ===== src/ClientIp/RoundTrip.antt =====
-- Printing a chain of addresses as `Forwarded` headers and parsing it back,
-- internal/clientip/resolver.go.
use netgoat.Prelude.{
  ◌+◌, ◌≤◌, ◌≡◌, ◌≢◌, refl, ap, ◌∙◌, some, List, [], ◌∷◌, ◌++◌, All, arith, length, map, inl,
  length-append,
}
use mathlib.Core.List.{append_assoc, append-nil}
use netgoat.Std.Text.{Bytes}
use netgoat.ClientIp.NetIp.{NetIp}
use netgoat.ClientIp.Parse.{
  collect, forwarded_for_address, parse_address, forwarded_values, parse_forwarded, header_size,
  non_empty, max_forwarded_header_bytes, max_forwarded_addresses,
}
use netgoat.ClientIp.Quoting.{
  IsPrintable, for_element, split-for_element, forwarded_for_address-for_element,
}

module _ (n : NetIp) where
  open n use {Addr}

  -- A printed address and the address that it stands for.
  abbrev pub Prints : Bytes × Addr → Type 0
  Prints p = All IsPrintable p.0 × (p.0 ≢ []) × (parse_address n p.0 ≡ some p.1)

  abbrev pub header_of : Bytes × Addr → Bytes
  header_of p = for_element p.0

  abbrev pub address_of : Bytes × Addr → Addr
  address_of p = p.1

  collect-for_element :
      (chain : List Addr) (p : Bytes × Addr)
      → Prints p
      → length chain + 1 ≤ max_forwarded_addresses
      → collect n (forwarded_for_address n) chain (header_of p ∷ [])
        ≡ some (chain ++ address_of p ∷ [])
  unfolding collect
  collect-for_element chain p (printable, some', parsed) room =
      let found = forwarded_for_address-for_element n p.0 printable some' ∙ parsed in
      rw (found, collect) (ground arith)

  forwarded_values-header_of :
      (chain : List Addr) (ps : List (Bytes × Addr))
      → All Prints ps
      → length chain + length ps ≤ max_forwarded_addresses
      → forwarded_values n chain (map header_of ps) ≡ some (chain ++ map address_of ps)
  unfolding forwarded_values
  forwarded_values-header_of chain [] h room = rw append-nil refl
  forwarded_values-header_of chain (p ∷ ps) (here, h) room =
      rw (split-for_element b',' p.0 (inl refl) here.0, forwarded_values)
        (rw (collect-for_element chain p here (omega arith), forwarded_values)
          (forwarded_values-header_of (chain ++ address_of p ∷ []) ps h
              (omega (arith, length-append chain (address_of p ∷ [])))
            ∙ ap some (append_assoc chain (address_of p ∷ []) (map address_of ps))))

  -- A chain of one to 64 addresses, each printed in its own header as a quoted string, is parsed
  -- back as that chain, if every printed text is non-empty, free of control characters and parsed
  -- as its address, and if the headers have no more than 8192 bytes.
  pub parse_forwarded-header_of :
      (p : Bytes × Addr) (ps : List (Bytes × Addr))
      → All Prints (p ∷ ps)
      → length (p ∷ ps) ≤ max_forwarded_addresses
      → header_size (map header_of (p ∷ ps)) ≤ max_forwarded_header_bytes
      → parse_forwarded n (map header_of (p ∷ ps)) ≡ some (map address_of (p ∷ ps))
  unfolding parse_forwarded non_empty
  parse_forwarded-header_of p ps h few small =
      let parsed = forwarded_values-header_of [] (p ∷ ps) h (omega arith) in
      rw (parsed, parse_forwarded) (ground arith)

-- ===== src/ClientIp/NetIp.antt =====
-- What internal/clientip/resolver.go uses of Go's net/netip: addresses and prefixes with their
-- parsers and printers. An error of a parser is `none`.
use netgoat.Prelude.{ℕ, Bool, Option, Eq}
use netgoat.Std.Text.{Bytes}

pub record NetIp : Type 1 where
  pub Addr : Type 0
  pub Prefix : Type 0
  -- `==` on addresses and on prefixes.
  pub addr_eq : Eq Addr
  pub prefix_eq : Eq Prefix
  pub parse_addr : Bytes → Option Addr
  -- `ParseAddrPort`, without the port.
  pub parse_addr_port : Bytes → Option Addr
  -- `Zone() != ""`
  pub has_zone : Addr → Bool
  pub unmap : Addr → Addr
  pub is4in6 : Addr → Bool
  pub bit_len : Addr → ℕ
  -- `String()`
  pub text : Addr → Bytes
  pub parse_prefix : Bytes → Option Prefix
  pub prefix_from : Addr → ℕ → Prefix
  pub prefix_addr : Prefix → Addr
  pub prefix_bits : Prefix → ℕ
  pub masked : Prefix → Prefix
  pub prefix_contains : Prefix → Addr → Bool

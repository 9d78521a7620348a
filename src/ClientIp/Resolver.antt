-- ===== src/ClientIp/Resolver.antt =====
-- `Resolver` of internal/clientip/resolver.go: the trusted proxies, and the client's address as
-- seen through them. A `nil` resolver or request is `none`.
use netgoat.Prelude.{
  ◌-◌, Bool, true, false, not, ◌&&◌, ◌||◌, Option, none, some, List, [], ◌∷◌, ◌++◌, ltb,
  if◌then◌else◌, ◌>>=◌, ◌==◌, nat_eq,
}
use mathlib.Core.List.{reverse}
use netgoat.Std.Text.{Bytes, bytes_eq, codes, trim_space, contains}
use netgoat.ClientIp.NetIp.{NetIp}
use netgoat.ClientIp.Parse.{parse_address, parse_x_forwarded_for, parse_forwarded}

-- `req.RemoteAddr` and the values of the two forwarding headers.
pub record Request : Type 0 where
  pub remote_addr : Bytes
  pub forwarded : List Bytes
  pub x_forwarded_for : List Bytes

module _ (n : NetIp) where
  open n use {
    Addr, Prefix, addr_eq, prefix_eq, parse_addr, has_zone, unmap, is4in6, bit_len, text,
    parse_prefix, prefix_from, prefix_addr, prefix_bits, masked, prefix_contains,
  }

  unfoldable pub parse_prefix_entry : Bytes → Option Prefix
  parse_prefix_entry value = do
    prefix ← parse_prefix value
    if has_zone (prefix_addr prefix)
        then none
        else if is4in6 (prefix_addr prefix)
        then (if ltb (prefix_bits prefix) 96
            then none
            else some (masked (prefix_from (unmap (prefix_addr prefix)) (prefix_bits prefix - 96))))
        else some (masked prefix)

  unfoldable pub parse_address_entry : Bytes → Option Prefix
  parse_address_entry value = do
    addr ← parse_addr value
    if has_zone addr then none else some (prefix_from (unmap addr) (bit_len (unmap addr)))

  unfoldable pub parse_trusted_prefix : Bytes → Option Prefix
  parse_trusted_prefix raw =
      let value = trim_space raw in
      if value == []
      then none
      else if contains value (codes "/")
      then parse_prefix_entry value
      else parse_address_entry value

  unfoldable pub mem_prefix : Prefix → List Prefix → Bool
  mem_prefix p [] = false
  mem_prefix p (q ∷ qs) = prefix_eq.beq q p || mem_prefix p qs

  -- The loop of `New`; what is `seen` is what has been appended.
  unfoldable pub new_loop : List Prefix → List Bytes → Option (List Prefix)
  new_loop trusted [] = some trusted
  new_loop trusted (raw ∷ raws) = parse_trusted_prefix raw >>= λ prefix.
      new_loop (if mem_prefix prefix trusted then trusted else trusted ++ prefix ∷ []) raws

  unfoldable pub new : List Bytes → Option (List Prefix)
  new trusted_proxies = new_loop [] trusted_proxies

  unfoldable pub any_contains : List Prefix → Addr → Bool
  any_contains [] addr = false
  any_contains (p ∷ ps) addr = prefix_contains p addr || any_contains ps addr

  unfoldable pub is_trusted : List Prefix → Addr → Bool
  is_trusted trusted addr = any_contains trusted (unmap addr)

  unfoldable pub same_chain : List Addr → List Addr → Bool
  same_chain [] [] = true
  same_chain (a ∷ as') (b ∷ bs) = addr_eq.beq a b && same_chain as' bs
  same_chain _ _ = false

  -- The chain that the headers give: `none` if one of them is malformed or if both stand and
  -- contradict each other.
  unfoldable pub forwarding_chain : List Bytes → List Bytes → Option (List Addr)
  forwarding_chain forwarded [] = parse_forwarded n forwarded
  forwarding_chain [] (x ∷ xs) = parse_x_forwarded_for n (x ∷ xs)
  forwarding_chain (f ∷ fs) (x ∷ xs) = do
    chain ← parse_forwarded n (f ∷ fs)
    xff_chain ← parse_x_forwarded_for n (x ∷ xs)
    if not (same_chain chain xff_chain) then none else some xff_chain

  -- The loop from the last address of the chain to the first, over the reversed chain.
  unfoldable pub first_untrusted : List Prefix → List Addr → Option Addr
  first_untrusted trusted [] = none
  first_untrusted trusted (a ∷ r) =
      if is_trusted trusted a then first_untrusted trusted r else some a

  -- The end of `ClientIP`: the last address of the chain that is not trusted, or else the peer.
  unfoldable pub settle : List Prefix → Addr → Option (List Addr) → Bytes
  settle trusted peer none = text peer
  settle trusted peer (some chain) = elim (first_untrusted trusted (reverse chain)) [
    | none ↦ text peer
    | some a ↦ text a
  ]

  -- `ClientIP` once the peer is known to be trusted.
  unfoldable pub behind_proxy : List Prefix → Addr → List Bytes → List Bytes → Bytes
  behind_proxy trusted peer [] [] = text peer
  behind_proxy trusted peer [] (x ∷ xs) = settle trusted peer (forwarding_chain [] (x ∷ xs))
  behind_proxy trusted peer (f ∷ fs) xff = settle trusted peer (forwarding_chain (f ∷ fs) xff)

  unfoldable pub client_ip : Option (List Prefix) → Option Request → Bytes
  client_ip resolver none = []
  client_ip resolver (some req) = elim (parse_address n req.remote_addr) [
    | none ↦ trim_space req.remote_addr
    | some peer ↦ elim resolver [
      | none ↦ text peer
      | some trusted ↦
          if not (is_trusted trusted peer)
          then text peer
          else behind_proxy trusted peer req.forwarded req.x_forwarded_for
    ]
  ]

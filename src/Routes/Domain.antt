-- ===== src/Routes/Domain.antt =====
-- `normalizeDomain` of internal/database/database.go and `normalizeResolverDomain` of
-- internal/database/route_resolver.go. Host names are ASCII.
use netgoat.Prelude.{
  Bool, false, not, ◌&&◌, ◌||◌, Option, none, some, [], ◌∷◌, if◌then◌else◌, ◌==◌, nat_eq,
}
use netgoat.Std.Text.{
  Bytes, bytes_eq, codes, to_lower, trim_space, trim_prefix, has_prefix, contains, cut,
}
use netgoat.Std.Search.{trim_suffix, has_byte}

-- The host that `net.SplitHostPort` finds, if it finds one: `host:port` with one colon and no
-- bracket, or `[host]:port` with brackets and no other.
unfoldable pub plain_host : Option (Bytes × Bytes) → Option Bytes
plain_host none = none
plain_host (some (host, port)) =
    if has_byte b':' port
      || has_byte b'[' host
      || has_byte b']' host
      || has_byte b'[' port
      || has_byte b']' port
    then none
    else some host

unfoldable pub port_follows : Bytes → Bool
port_follows [] = false
port_follows (c ∷ port) =
    c == b':' && not (has_byte b':' port || has_byte b'[' port || has_byte b']' port)

unfoldable pub bracketed_host : Option (Bytes × Bytes) → Option Bytes
bracketed_host none = none
bracketed_host (some (host, rest)) =
    if port_follows rest && not (has_byte b'[' host) then some host else none

unfoldable pub split_host_port : Bytes → Option Bytes
split_host_port [] = none
split_host_port (c ∷ s) =
    if c == b'[' then bracketed_host (cut b']' s) else plain_host (cut b':' (c ∷ s))

unfoldable pub without_port : Bytes → Bytes
without_port domain = elim (split_host_port domain) [
  | some host ↦ host
  | none ↦ trim_prefix (trim_suffix domain (codes "]")) (codes "[")
]

unfoldable pub normalize_domain : Bytes → Bytes
normalize_domain domain = to_lower (trim_suffix (without_port (trim_space domain)) (codes "."))

unfoldable pub normalize_resolver_domain : Bytes → Bytes
normalize_resolver_domain domain =
    let domain' = trim_space domain in
    if contains domain' (codes ":") || has_prefix domain' (codes "[")
    then normalize_domain domain'
    else to_lower (trim_suffix domain' (codes "."))

-- ===== src/Agent/Tests.antt =====
-- The shared response cache of main.go on a plain request and a public response.
use netgoat.Prelude.{
  ◌↔◌, ℕ, none, ◌≡◌, refl, some, pos, negsuc, ◌*◌, ◌^◌, arith, true, false, [], ◌∷◌,
}
use netgoat.Std.Dict.{lookup}
use netgoat.Std.Text.{
  Bytes, bytes_eq, codes, bytes_beq, lower_byte, to_lower, trim_left, trim_right, trim, is_space,
  trim_space, split, cut, equal_fold,
}
use netgoat.Cache.Store.{Header}
use netgoat.Agent.Sharing.{
  first_value, header_get, is_empty, before_equals, directive_name, has_part, has_cache_directive,
  none_set, is_request_cacheable_for_shared_store, has_any_directive, only_accept_encoding,
  is_shared_cacheable_response,
}
use netgoat.Agent.Lifetime.{
  declared, find_lifetime, parse_int, positive, negative, parse_unsigned, parse_digits,
  shared_cache_ttl, shared_cache_ttl-declared,
}
use netgoat.Std.Keys.{IsKeyed}
use netgoat.Agent.Merge.{
  ConfigSnapshot, empty_snapshot, merge_config_snapshots, prefer, lookup-merge_config_snapshots,
}
use netgoat.Agent.Shared.{IsShareable, response_unshared}

program : Unit {0}
unfolding lookup bytes_beq lower_byte to_lower trim_left trim_right trim is_space trim_space split
    cut equal_fold first_value header_get is_empty before_equals directive_name has_part
    has_cache_directive none_set is_request_cacheable_for_shared_store has_any_directive
    only_accept_encoding is_shared_cacheable_response
program = tt

abbrev asked : Header
asked = (codes "Accept", codes "*/*" ∷ []) ∷ []

abbrev answered : Header
answered =
    (codes "Cache-Control", codes "Public, max-age=60" ∷ [])
    ∷ (codes "Vary", codes "Accept-Encoding" ∷ [])
    ∷ []

asked_plainly : is_request_cacheable_for_shared_store (codes "GET") asked ≡ true
unfolding program
asked_plainly = refl

answered_publicly : is_shared_cacheable_response answered ≡ true
unfolding program
answered_publicly = refl

not_with_cookies :
    is_shared_cacheable_response ((codes "Set-Cookie", codes "a=b" ∷ []) ∷ answered) ≡ false
unfolding program
not_with_cookies = refl

response_unshared_example : (is_shared_cacheable_response answered ≡ true) ↔ IsShareable answered
response_unshared_example = response_unshared answered

-- A lifetime of 9223372037 seconds, the least that does not fit.
abbrev long_lifetime : Bytes
long_lifetime = codes "public, max-age=9223372037"

long_lifetime-declared : declared long_lifetime ≡ some (some (pos 9223372037))
unfolding program declared find_lifetime parse_int positive negative parse_unsigned parse_digits
long_lifetime-declared = refl

shared_cache_ttl-declared_example :
    shared_cache_ttl long_lifetime (pos (60 * 10 ^ 9)) ≡ (negsuc 9223372036709551615, true)
shared_cache_ttl-declared_example =
    shared_cache_ttl-declared long_lifetime 9223372036 59999999999 long_lifetime-declared
      (omega arith)

abbrev local_snapshot : ConfigSnapshot ℕ ℕ ℕ ℕ ℕ
local_snapshot = record (empty_snapshot 0) {
  routes = (codes "a.example", 1) ∷ (codes "b.example", 2) ∷ [];
}

abbrev remote_snapshot : ConfigSnapshot ℕ ℕ ℕ ℕ ℕ
remote_snapshot = record (empty_snapshot 0) {
  routes = (codes "b.example", 3) ∷ [];
  waf_rules = (codes "block", 7) ∷ [];
}

lookup-merge_config_snapshots_example :
    let merged = merge_config_snapshots 0 (some local_snapshot) (some remote_snapshot) in
    (lookup (codes "b.example") merged.routes ≡ some 3)
    × (lookup (codes "b.example") merged.waf_rules ≡ none)
unfolding lookup prefer IsKeyed bytes_beq
lookup-merge_config_snapshots_example =
    lookup-merge_config_snapshots 0 local_snapshot remote_snapshot (codes "b.example")
      (refl, (refl, tt)) (refl, tt) (refl, tt)

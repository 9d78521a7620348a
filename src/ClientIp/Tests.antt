-- ===== src/ClientIp/Tests.antt =====
-- The resolver at small inputs, over addresses that are plain texts.
use netgoat.Prelude.{
  ◌≡◌, refl, true, false, Option, none, some, List, [], ◌∷◌, ◌++◌, map, arith, if◌then◌else◌, ◌⊎◌,
  nat_eq,
}
use netgoat.Std.Text.{
  Bytes, bytes_eq, bytes_beq, codes, trim_space, to_lower, split, cut, trim_left, trim_right,
  contains,
}
use netgoat.ClientIp.NetIp.{NetIp}
use netgoat.ClientIp.Scan.{
  is_control, trim_ows, is_token, contains_invalid_header_control, finish, scan_byte, scan,
  split_outside_quotes, decode_inner, decode_forwarded_value,
}
use netgoat.ClientIp.Parse.{
  header_size, seen_name, bracketed, accept, or_else, parse_trimmed, parse_address, collect,
  non_empty, x_forwarded_for_values, parse_x_forwarded_for, parameters_loop, forwarded_for_address,
  forwarded_values, parse_forwarded,
}
use netgoat.ClientIp.Resolver.{
  Request, any_contains, is_trusted, same_chain, forwarding_chain, first_untrusted, settle,
  behind_proxy, client_ip,
}
use netgoat.ClientIp.Quoting.{escape, quote, for_element}
use netgoat.ClientIp.RoundTrip.{header_of, address_of, parse_forwarded-header_of}
use netgoat.ClientIp.Chain.{IsClient, client_ip-IsClient}
use netgoat.ClientIp.Spoofing.{request, client_ip_forged}

text_addr : Bytes → Option Bytes
text_addr s = if is_token s then some s else none

-- Every token is an address, and a prefix holds the one address that it spells.
abbrev sample : NetIp
sample = record {
  Addr = Bytes;
  Prefix = Bytes;
  addr_eq = bytes_eq;
  prefix_eq = bytes_eq;
  parse_addr = text_addr;
  parse_addr_port = λ s. none;
  has_zone = λ a. false;
  unmap = λ a. a;
  is4in6 = λ a. false;
  bit_len = λ a. 32;
  text = λ a. a;
  parse_prefix = text_addr;
  prefix_from = λ a bits. a;
  prefix_addr = λ p. p;
  prefix_bits = λ p. 32;
  masked = λ p. p;
  prefix_contains = bytes_beq;
}

program : Unit {0}
unfolding text_addr bytes_beq trim_space to_lower split cut contains trim_ows trim_left trim_right
    is_token contains_invalid_header_control finish scan_byte scan split_outside_quotes decode_inner
    decode_forwarded_value header_size seen_name bracketed accept or_else parse_trimmed
    parse_address collect non_empty x_forwarded_for_values parse_x_forwarded_for parameters_loop
    forwarded_for_address forwarded_values parse_forwarded any_contains is_trusted same_chain
    forwarding_chain first_untrusted settle behind_proxy client_ip is_control escape quote
    for_element
program = tt

abbrev proxies : List Bytes
proxies = codes "10.0.0.1" ∷ codes "10.0.0.2" ∷ []

abbrev forwarded_request : Request
forwarded_request = record {
  remote_addr = codes "10.0.0.1";
  forwarded = codes "for=\"1.2.3.4\";proto=http, for=10.0.0.2" ∷ [];
  x_forwarded_for = codes "1.2.3.4 , 10.0.0.2" ∷ [];
}

both_headers : client_ip sample (some proxies) (some forwarded_request) ≡ codes "1.2.3.4"
unfolding program
both_headers = refl

client_ip-IsClient_example :
    (client_ip sample (some proxies) (some forwarded_request) ≡ codes "10.0.0.1")
    ⊎ ((chain : List Bytes) × (a : Bytes) × (is_trusted sample proxies (codes "10.0.0.1") ≡ true)
        × (forwarding_chain sample forwarded_request.forwarded forwarded_request.x_forwarded_for
            ≡ some chain)
        × IsClient sample proxies chain a
        × (client_ip sample (some proxies) (some forwarded_request) ≡ a))
unfolding program
client_ip-IsClient_example =
    client_ip-IsClient sample proxies forwarded_request (codes "10.0.0.1") refl

client_ip_forged_example :
    (client_ip sample
        (some proxies)
        (some (request sample (codes "10.0.0.1") (codes "1.2.3.4" ∷ [])))
      ≡ codes "1.2.3.4")
    × ((client_ip sample (some proxies) (
            some
              (request sample (codes "10.0.0.1") ((codes "6.6.6.6" ∷ []) ++ codes "1.2.3.4" ∷ [])))
          ≡ codes "1.2.3.4")
        ⊎ (client_ip sample (some proxies) (
              some (
                request sample (codes "10.0.0.1") ((codes "6.6.6.6" ∷ []) ++ codes "1.2.3.4" ∷ [])))
            ≡ codes "10.0.0.1"))
unfolding program
client_ip_forged_example =
    client_ip_forged sample proxies (codes "10.0.0.1") (codes "10.0.0.1") (codes "1.2.3.4")
      (codes "6.6.6.6" ∷ []) (codes "1.2.3.4") [] (codes "1.2.3.4" ∷ []) refl refl refl refl

abbrev printed : List (Bytes × Bytes)
printed = (codes "5.6", codes "5.6") ∷ []

parse_forwarded-header_of_example :
    parse_forwarded sample (map (header_of sample) ((codes "1.2", codes "1.2") ∷ printed))
    ≡ some (map (address_of sample) ((codes "1.2", codes "1.2") ∷ printed))
unfolding program
parse_forwarded-header_of_example =
    parse_forwarded-header_of sample (codes "1.2", codes "1.2") printed
      (
        ((refl, (refl, (refl, tt))), (λ e. cc), refl),
        (((refl, (refl, (refl, tt))), (λ e. cc), refl), tt),
      )
      (omega arith) (omega arith)

-- ===== src/Gateway/Request.antt =====
-- What the handlers of main.go read of a request, and internal/honeypot/honeypot.go. Header names
-- are in their canonical form, as in net/http.
use netgoat.Prelude.{
  ℕ, Bool, true, false, not, ◌&&◌, ◌||◌, Option, none, some, List, [], ◌∷◌, ◌++◌, if◌then◌else◌,
  ◌==◌, nat_eq, ltb, leb, length,
}
use netgoat.Std.Dict.{lookup, insert, delete}
use netgoat.Std.Text.{
  Bytes, bytes_eq, codes, to_lower, trim_space, has_prefix, contains, equal_fold,
}
use netgoat.Std.Search.{has_suffix}
use netgoat.Std.Words.{fields, join, itoa}
use netgoat.Std.Url.{parse_query}
use netgoat.Cache.Store.{Header}
use netgoat.ClientIp.NetIp.{NetIp}
use netgoat.ClientIp.Resolver.{client_ip}
use netgoat.Waf.Engine.{WafRequest}
use netgoat.Auth.Check.{Credentials, AuthResult}
use netgoat.Auth.Login.{form_value}
use netgoat.Agent.Sharing.{header_get}

-- `auth_token` is the value of that cookie, `escaped_path` what `URL.EscapedPath` returns.
pub record Request : Type 0 where
  pub remote_addr : Bytes
  pub host : Bytes
  pub method : Bytes
  pub path : Bytes
  pub escaped_path : Bytes
  pub raw_query : Bytes
  pub header : Header
  pub auth_token : Option Bytes

unfoldable pub credentials : Request → Credentials
credentials r = record {
  authorization = header_get (codes "Authorization") r.header;
  auth_token = r.auth_token;
}

unfoldable pub waf_request : Request → WafRequest
waf_request r = record {
  remote_addr = r.remote_addr;
  request_host = r.host;
  request_method = r.method;
  url_path = r.path;
  url_raw_query = r.raw_query;
  header = r.header;
}

unfoldable pub all_values : Option (List Bytes) → List Bytes
all_values none = []
all_values (some values) = values

module _ (n : NetIp) where
  -- `ClientIP` of a resolver, on the two headers that it reads.
  unfoldable pub resolve_client : List n.Prefix → Request → Bytes
  resolve_client trusted r = client_ip n (some trusted) (
      some (record {
        remote_addr = r.remote_addr;
        forwarded = all_values (lookup (codes "Forwarded") r.header);
        x_forwarded_for = all_values (lookup (codes "X-Forwarded-For") r.header);
      }))

  unfoldable pub get_client_ip : List n.Prefix → Request → Bytes
  get_client_ip trusted r = resolve_client trusted r

  -- The direct peer is what a resolver without trusted proxies finds.
  unfoldable pub prepare_forwarding_headers : Request → Bytes → Header
  prepare_forwarding_headers r resolved =
      let direct_peer = resolve_client [] r in
      let stripped =
        delete (codes "X-Forwarded-Proto")
          (delete (codes "X-Forwarded-Host") (delete (codes "Forwarded") r.header)) in
      if resolved == [] || resolved == direct_peer
      then delete (codes "X-Forwarded-For") stripped
      else insert (codes "X-Forwarded-For") (resolved ∷ []) stripped

  unfoldable pub rate_limit_key : List n.Prefix → Request → Bytes → Bytes
  rate_limit_key trusted r key_mode =
      let mode = to_lower (trim_space key_mode) in
      if mode == codes "host"
      then r.host
      else if mode == codes "route"
      then r.host ++ (codes "|" ++ r.path)
      else if mode == codes "global"
      then codes "global"
      else get_client_ip trusted r

unfoldable pub zero_trust_challenge_binding : Bytes → AuthResult → Bytes
zero_trust_challenge_binding ip result =
    if not result.authenticated || result.user_id == 0
    then ip
    else ip ++ (codes "|user:" ++ itoa result.user_id)

unfoldable pub if_empty : Bytes → Bytes → Bytes
if_empty v default = if v == [] then default else v

-- The features of a request: in a header, or else in the query.
unfoldable pub feature_csv : Bytes → Bytes → Request → Bytes
feature_csv header_name query_name r =
    let csv = header_get header_name r.header in
    if csv == [] then form_value query_name (parse_query r.raw_query) else csv

-- The host without what stands behind its last colon, unless that is its first byte.
unfoldable pub before_last_colon : Bytes → Option Bytes
before_last_colon [] = none
before_last_colon (c ∷ s) = elim (before_last_colon s) [
  | some t ↦ some (c ∷ t)
  | none ↦ if c == b':' then some [] else none
]

unfoldable pub host_name : Bytes → Bytes
host_name host = elim (before_last_colon host) [
  | none ↦ host
  | some [] ↦ host
  | some (c ∷ t) ↦ c ∷ t
]

unfoldable pub cache_key : Request → Bytes
cache_key r =
    let encoding = to_lower (join [] (fields (header_get (codes "Accept-Encoding") r.header))) in
    r.method
    ++ (codes "|"
        ++ (to_lower r.host
            ++ (codes "|"
                ++ (r.escaped_path ++ (codes "?" ++ (r.raw_query ++ (codes "|ae=" ++ encoding)))))))

-- `Check` of internal/honeypot/honeypot.go: whether the decoy is served.
unfoldable pub honeypot_check : Bytes → Bool
honeypot_check path =
    if path == codes "/.env" then true else contains path (codes "/.git/") || path == codes "/.git"

-- What `url.Parse` finds in a URL.
pub record Url : Type 0 where
  pub scheme : Bytes
  pub url_host : Bytes
  pub url_path : Bytes
  pub request_uri : Bytes

unfoldable pub redirect_to : Url → Bytes → Bytes
redirect_to u request_host =
    if u.url_path == []
      || (not (has_prefix u.url_path (codes "/")) || has_prefix u.url_path (codes "//"))
    then codes "/"
    else if not (u.url_host == []) && not (equal_fold u.url_host request_host)
    then codes "/"
    else if not (u.scheme == [])
        && (not (u.scheme == codes "http") && not (u.scheme == codes "https"))
    then codes "/"
    else u.request_uri

unfoldable pub safe_local_redirect : (Bytes → Option Url) → Bytes → Bytes → Bytes
safe_local_redirect parse raw request_host = elim (parse (trim_space raw)) [
  | none ↦ codes "/"
  | some u ↦ redirect_to u request_host
]

unfoldable pub is_path_byte : ℕ → Bool
is_path_byte c =
    (leb b'a' c && leb c b'z')
    || ((leb b'A' c && leb c b'Z')
        || ((leb b'0' c && leb c b'9')
            || (c == b'/' || (c == b'-' || (c == b'_' || (c == b'.' || c == b'~'))))))

unfoldable pub all_bytes : (ℕ → Bool) → Bytes → Bool
all_bytes p [] = true
all_bytes p (c ∷ s) = if p c then all_bytes p s else false

-- The path of the metrics, and whether it is the configured one.
unfoldable pub metrics_endpoint_path : Bytes → Bytes × Bool
metrics_endpoint_path configured =
    let fallback = codes "/__netgoat/metrics" in
    let path = trim_space configured in
    if path == []
    then (fallback, true)
    else if ltb 128 (length path)
        || (not (has_prefix path (codes "/"))
            || (has_prefix path (codes "//") || has_suffix path (codes "/")))
    then (fallback, false)
    else if path == codes "/" || (path == codes "/login" || path == codes "/__netgoat/verify")
    then (fallback, false)
    else if all_bytes is_path_byte path
    then (path, true)
    else (fallback, false)

-- ===== src/Agent/Sharing.antt =====
-- Which requests and responses of main.go may go through the shared response cache. Header names
-- are in their canonical form, as in net/http.
use netgoat.Prelude.{
  Bool, true, false, not, ◌||◌, Option, none, some, List, [], ◌∷◌, if◌then◌else◌, ◌==◌,
}
use netgoat.Std.Dict.{lookup}
use netgoat.Std.Text.{Bytes, bytes_eq, codes, to_lower, trim_space, split, cut, equal_fold}
use netgoat.Cache.Store.{Header}

-- `Header.Get`: the first value, or the empty string.
unfoldable pub first_value : Option (List Bytes) → Bytes
first_value none = []
first_value (some []) = []
first_value (some (v ∷ _)) = v

unfoldable pub header_get : Bytes → Header → Bytes
header_get name h = first_value (lookup name h)

unfoldable pub is_empty : Bytes → Bool
is_empty [] = true
is_empty (_ ∷ _) = false

-- `strings.SplitN(part, "=", 2)[0]`, trimmed.
unfoldable pub before_equals : Bytes → Option (Bytes × Bytes) → Bytes
before_equals part none = part
before_equals part (some (before, _)) = before

unfoldable pub directive_name : Bytes → Bytes
directive_name part = trim_space (before_equals part (cut 61 part))

unfoldable pub has_part : List Bytes → Bytes → Bool
has_part [] directive = false
has_part (part ∷ parts) directive =
    if directive_name part == directive then true else has_part parts directive

unfoldable pub has_cache_directive : Bytes → Bytes → Bool
has_cache_directive header directive = has_part (split 44 header) directive

-- The loop over header names that must be absent.
unfoldable pub none_set : List Bytes → Header → Bool
none_set [] h = true
none_set (name ∷ names) h = if is_empty (header_get name h) then none_set names h else false

abbrev pub conditional_headers : List Bytes
conditional_headers =
    codes "Range"
    ∷ codes "If-Match"
    ∷ codes "If-None-Match"
    ∷ codes "If-Modified-Since"
    ∷ codes "If-Unmodified-Since"
    ∷ []

unfoldable pub is_request_cacheable_for_shared_store : Bytes → Header → Bool
is_request_cacheable_for_shared_store method h =
    if not (method == codes "GET") || not (is_empty (header_get (codes "Upgrade") h))
    then false
    else if not (is_empty (header_get (codes "Authorization") h))
        || not (is_empty (header_get (codes "Cookie") h))
    then false
    else if not (none_set conditional_headers h)
    then false
    else (let request_cache_control = to_lower (header_get (codes "Cache-Control") h) in
        not (
          has_cache_directive request_cache_control (codes "no-cache")
          || has_cache_directive request_cache_control (codes "no-store")
          || has_cache_directive request_cache_control (codes "max-age")
          || equal_fold (trim_space (header_get (codes "Pragma") h)) (codes "no-cache")))

-- The loop over directives that forbid sharing.
unfoldable pub has_any_directive : Bytes → List Bytes → Bool
has_any_directive cache_control [] = false
has_any_directive cache_control (d ∷ ds) =
    if has_cache_directive cache_control d then true else has_any_directive cache_control ds

abbrev pub forbidding : List Bytes
forbidding = codes "private" ∷ codes "no-store" ∷ codes "no-cache" ∷ []

-- The loop over the parts of `Vary`.
unfoldable pub only_accept_encoding : List Bytes → Bool
only_accept_encoding [] = true
only_accept_encoding (part ∷ parts) =
    if trim_space part == codes "accept-encoding" then only_accept_encoding parts else false

unfoldable pub is_shared_cacheable_response : Header → Bool
is_shared_cacheable_response h =
    let cache_control = to_lower (header_get (codes "Cache-Control") h) in
    let vary = to_lower (trim_space (header_get (codes "Vary") h)) in
    if not (is_empty (header_get (codes "Set-Cookie") h))
    then false
    else if is_empty cache_control || not (has_cache_directive cache_control (codes "public"))
    then false
    else if has_any_directive cache_control forbidding
    then false
    else if is_empty vary
    then true
    else only_accept_encoding (split 44 vary)

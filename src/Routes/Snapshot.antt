-- ===== src/Routes/Snapshot.antt =====
-- The route snapshot of internal/database/route_resolver.go: `loadRouteSnapshot` and `Reload`. A query
-- is the list of its rows, or nothing where it, one of its rows or the transaction (its commit included)
-- fails; the routes are the active
-- ones, in the order of their ids, and ids are unique.
use netgoat.Prelude.{
  ℕ, ◌+◌, Bool, not, ◌&&◌, ◌||◌, Option, none, some, List, [], ◌∷◌, ◌++◌, if◌then◌else◌, ◌==◌,
  nat_eq, is_some, ltb, leb, ◌>>=◌,
}
use netgoat.Std.Dict.{Dict, lookup, insert}
use netgoat.Std.Sort.{sort_stable}
use netgoat.Std.Text.{Bytes, bytes_eq, codes, to_lower, trim_space}
use netgoat.Routes.Domain.{normalize_resolver_domain}
use netgoat.Routes.Matcher.{Regexp, DomainMatcher, unset, compile_domain_matcher, configured}

pub record RouteTarget : Type 0 where
  pub url : Bytes
  pub health_check : Bytes

pub record RouteRow : Type 0 where
  pub row_id : ℕ
  pub row_type : Bytes
  pub row_domain : Bytes
  pub row_path_prefix : Bytes
  pub row_target_url : Bytes
  pub row_certificate : Bytes
  pub row_private_key : Bytes

pub record TargetRow : Type 0 where
  pub route_id : ℕ
  pub row_target : RouteTarget

pub record CachedRoute (regexp : Regexp) : Type 0 where
  pub id : ℕ
  pub route_type : Bytes
  pub domain : Bytes
  pub normalized_host : Bytes
  pub path_prefix : Bytes
  pub target_url : Bytes
  pub certificate_pem : Bytes
  pub private_key_pem : Bytes
  pub exact_route_key : Bytes
  pub pattern_route_key : Bytes
  pub path_route_key : Bytes
  pub targets : List RouteTarget
  pub matcher : DomainMatcher regexp

pub record RouteSnapshot (regexp : Regexp) : Type 0 where
  pub exact_domains : Dict Bytes (CachedRoute regexp)
  pub patterns : List (CachedRoute regexp)
  pub paths : List (CachedRoute regexp)

-- The number of runes of a text in UTF-8: its bytes less those that continue a rune.
unfoldable pub rune_count : Bytes → ℕ
rune_count [] = 0
rune_count (c ∷ s) = let rest = rune_count s in if leb 128 c && ltb c 192 then rest else rest + 1

-- The longer text comes first, and of two that are equally long the smaller id.
unfoldable pub comes_before : ℕ → ℕ → ℕ → ℕ → Bool
comes_before left_length left_id right_length right_id =
    if left_length == right_length then ltb left_id right_id else ltb right_length left_length

module _ (regexp : Regexp) where
  unfoldable pub path_route : RouteRow → Bytes → CachedRoute regexp
  path_route row route_type = record {
    id = row.row_id;
    route_type = route_type;
    domain = row.row_domain;
    normalized_host = [];
    path_prefix = row.row_path_prefix;
    target_url = row.row_target_url;
    certificate_pem = row.row_certificate;
    private_key_pem = row.row_private_key;
    exact_route_key = [];
    pattern_route_key = [];
    path_route_key = codes "path:" ++ row.row_path_prefix;
    targets = [];
    matcher = unset;
  }

  unfoldable pub domain_route : RouteRow → Bytes → DomainMatcher regexp → CachedRoute regexp
  domain_route row route_type m =
      let host = normalize_resolver_domain row.row_domain in
      record {
        id = row.row_id;
        route_type = route_type;
        domain = row.row_domain;
        normalized_host = host;
        path_prefix = row.row_path_prefix;
        target_url = row.row_target_url;
        certificate_pem = row.row_certificate;
        private_key_pem = row.row_private_key;
        exact_route_key = codes "domain:" ++ host;
        pattern_route_key = codes "domain:" ++ row.row_domain;
        path_route_key = [];
        targets = [];
        matcher = m;
      }

  -- `none` is a pattern that does not compile.
  unfoldable pub scan_route : RouteRow → Option (CachedRoute regexp)
  scan_route row =
      let route_type = to_lower (trim_space row.row_type) in
      if route_type == codes "path"
      then some (path_route row route_type)
      else compile_domain_matcher regexp route_type row.row_domain >>= λ m.
          some (domain_route row route_type m)

  unfoldable pub scan_routes : List RouteRow → Option (List (CachedRoute regexp))
  scan_routes [] = some []
  scan_routes (row ∷ rows) =
      scan_route row >>= λ route. scan_routes rows >>= λ routes. some (route ∷ routes)

  unfoldable pub checked : RouteTarget → RouteTarget
  checked t = if t.health_check == [] then record t { health_check = codes "http" } else t

  -- The targets of a route, in the order of their rows.
  unfoldable pub targets_of : ℕ → List TargetRow → List RouteTarget
  targets_of id [] = []
  targets_of id (row ∷ rows) =
      if row.route_id == id then checked row.row_target ∷ targets_of id rows else targets_of id rows

  unfoldable pub fallback : Bytes → List RouteTarget → List RouteTarget
  fallback target_url [] =
      if target_url == [] then [] else record { url = target_url; health_check = codes "http" } ∷ []
  fallback target_url (t ∷ ts) = t ∷ ts

  unfoldable pub with_targets : List TargetRow → CachedRoute regexp → CachedRoute regexp
  with_targets rows route = record route {
    targets = fallback route.target_url (targets_of route.id rows);
  }

  unfoldable pub add_exact : CachedRoute regexp → RouteSnapshot regexp → RouteSnapshot regexp
  add_exact route s =
      if route.normalized_host == [] || is_some (lookup route.normalized_host s.exact_domains)
      then s
      else record s { exact_domains = insert route.normalized_host route s.exact_domains }

  unfoldable pub add_pattern : CachedRoute regexp → RouteSnapshot regexp → RouteSnapshot regexp
  add_pattern route s = record s { patterns = s.patterns ++ route ∷ [] }

  unfoldable pub add_path : CachedRoute regexp → RouteSnapshot regexp → RouteSnapshot regexp
  add_path route s = record s { paths = s.paths ++ route ∷ [] }

  -- The switch on the type of a route.
  unfoldable pub add_route : CachedRoute regexp → RouteSnapshot regexp → RouteSnapshot regexp
  add_route route s =
      if route.route_type == codes "domain"
      then (let s' = add_exact route s in
          if configured regexp route.matcher then add_pattern route s' else s')
      else if route.route_type == codes "wildcard" || route.route_type == codes "regex"
      then (if not (route.domain == []) && configured regexp route.matcher
          then add_pattern route s
          else s)
      else if route.route_type == codes "path"
      then add_path route s
      else s

  unfoldable pub add_routes :
      List TargetRow → List (CachedRoute regexp) → RouteSnapshot regexp → RouteSnapshot regexp
  add_routes rows [] s = s
  add_routes rows (route ∷ routes) s =
      add_routes rows routes (add_route (with_targets rows route) s)

  unfoldable pub pattern_before : CachedRoute regexp → CachedRoute regexp → Bool
  pattern_before a b = comes_before (rune_count a.domain) a.id (rune_count b.domain) b.id

  unfoldable pub path_before : CachedRoute regexp → CachedRoute regexp → Bool
  path_before a b = comes_before (rune_count a.path_prefix) a.id (rune_count b.path_prefix) b.id

  unfoldable pub sorted : RouteSnapshot regexp → RouteSnapshot regexp
  sorted s = record s {
    patterns = sort_stable pattern_before s.patterns;
    paths = sort_stable path_before s.paths;
  }

  abbrev pub new_route_snapshot : RouteSnapshot regexp
  new_route_snapshot = record { exact_domains = []; patterns = []; paths = [] }

  unfoldable pub load_route_snapshot :
      Option (List RouteRow) → Option (List TargetRow) → Option (RouteSnapshot regexp)
  load_route_snapshot route_rows target_rows = do
    rows ← route_rows
    routes ← scan_routes rows
    targets ← target_rows
    some (sorted (add_routes targets routes new_route_snapshot))

  -- The snapshot that is published after a reload: the old one where loading fails.
  unfoldable pub reload :
      Option (List RouteRow) → Option (List TargetRow) → RouteSnapshot regexp → RouteSnapshot regexp
  reload route_rows target_rows s = elim (load_route_snapshot route_rows target_rows) [
    | none ↦ s
    | some s' ↦ s'
  ]

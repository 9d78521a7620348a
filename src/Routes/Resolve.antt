-- ===== src/Routes/Resolve.antt =====
-- `Resolve` of internal/database/route_resolver.go. A domain that is empty is not given.
use netgoat.Prelude.{
  Bool, not, ◌&&◌, Option, none, some, List, [], ◌∷◌, if◌then◌else◌, ◌==◌, length, ltb,
}
use netgoat.Std.Dict.{lookup}
use netgoat.Std.Text.{Bytes, bytes_eq, has_prefix, equal_fold}
use netgoat.Routes.Domain.{normalize_resolver_domain}
use netgoat.Routes.Matcher.{Regexp, matches}
use netgoat.Routes.Snapshot.{RouteTarget, CachedRoute, RouteSnapshot}

pub record RouteMatch : Type 0 where
  pub route_key : Bytes
  pub match_targets : List RouteTarget
  pub match_certificate : Bytes
  pub match_private_key : Bytes

module _ (regexp : Regexp) where
  unfoldable pub domain_match : Bytes → CachedRoute regexp → RouteMatch
  domain_match route_key route = record {
    route_key = route_key;
    match_targets = route.targets;
    match_certificate = route.certificate_pem;
    match_private_key = route.private_key_pem;
  }

  unfoldable pub path_match : CachedRoute regexp → RouteMatch
  path_match route = record {
    route_key = route.path_route_key;
    match_targets = route.targets;
    match_certificate = [];
    match_private_key = [];
  }

  -- A route that is found answers if it has targets.
  unfoldable pub usable :
      (CachedRoute regexp → RouteMatch) → Option (CachedRoute regexp) → Option RouteMatch
  usable f none = none
  usable f (some route) = if ltb 0 (length route.targets) then some (f route) else none

  unfoldable pub or_else : Option RouteMatch → Option RouteMatch → Option RouteMatch
  or_else none b = b
  or_else (some a) b = some a

  unfoldable pub pattern_applies : Bytes → CachedRoute regexp → Bool
  pattern_applies domain route =
      not (equal_fold route.domain domain) && matches regexp route.matcher domain

  -- The loops stop at the first route that applies, whether it has targets or not.
  unfoldable pub first_pattern : Bytes → List (CachedRoute regexp) → Option (CachedRoute regexp)
  first_pattern domain [] = none
  first_pattern domain (route ∷ routes) =
      if equal_fold route.domain domain
      then first_pattern domain routes
      else if not (matches regexp route.matcher domain)
      then first_pattern domain routes
      else some route

  unfoldable pub first_path : Bytes → List (CachedRoute regexp) → Option (CachedRoute regexp)
  first_path path [] = none
  first_path path (route ∷ routes) =
      if has_prefix path route.path_prefix then some route else first_path path routes

  unfoldable pub resolve_domain : RouteSnapshot regexp → Bytes → Option RouteMatch
  resolve_domain s domain =
      or_else
        (usable (λ route. domain_match route.exact_route_key route) (lookup domain s.exact_domains))
        (usable (λ route. domain_match route.pattern_route_key route)
          (first_pattern domain s.patterns))

  unfoldable pub resolve : RouteSnapshot regexp → Bytes → Bytes → Option RouteMatch
  resolve s domain path =
      or_else (if domain == [] then none else resolve_domain s (normalize_resolver_domain domain))
        (if path == [] then none else usable path_match (first_path path s.paths))

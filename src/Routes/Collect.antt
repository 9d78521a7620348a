-- ===== src/Routes/Collect.antt =====
-- What `loadRouteSnapshot` of internal/database/route_resolver.go puts where.
use netgoat.Prelude.{
  ◌≡◌, refl, sym, ap, ◌∙◌, Bool, not, ◌&&◌, ◌||◌, Option, none, some, List, [], ◌∷◌, ◌++◌,
  if◌then◌else◌, ◌==◌, arith, Bool-cases, inl, inr,
}
use mathlib.Core.List.{append_assoc, append-nil}
use netgoat.Std.Dict.{lookup, lookup-insert}
use netgoat.Std.Sort.{find_first, keep}
use netgoat.Std.Text.{Bytes, bytes_eq, bytes_beq_iff, codes}
use netgoat.Routes.Matcher.{Regexp, configured}
use netgoat.Routes.Snapshot.{
  TargetRow, CachedRoute, RouteSnapshot, new_route_snapshot, with_targets, add_exact, add_pattern,
  add_path, add_route, add_routes,
}

module _ (regexp : Regexp) where
  -- The routes that answer for exactly this host, those with a pattern, and those of paths.
  unfoldable pub is_exact : Bytes → CachedRoute regexp → Bool
  is_exact host route =
      route.route_type == codes "domain"
      && not (route.normalized_host == [])
      && route.normalized_host == host

  unfoldable pub is_pattern : CachedRoute regexp → Bool
  is_pattern route =
      configured regexp route.matcher
      && (route.route_type == codes "domain"
          || ((route.route_type == codes "wildcard" || route.route_type == codes "regex")
              && not (route.domain == [])))

  unfoldable pub is_path : CachedRoute regexp → Bool
  is_path route =
      not (
        route.route_type == codes "domain"
        || route.route_type == codes "wildcard"
        || route.route_type == codes "regex")
      && route.route_type == codes "path"

  unfoldable pub completed : List TargetRow → List (CachedRoute regexp) → List (CachedRoute regexp)
  completed rows [] = []
  completed rows (route ∷ routes) = with_targets regexp rows route ∷ completed rows routes

  add_route-patterns :
      (r : CachedRoute regexp) (s : RouteSnapshot regexp)
      → (add_route regexp r s).patterns
        ≡ (if is_pattern r then s.patterns ++ r ∷ [] else s.patterns)
  unfolding add_route is_pattern add_exact add_pattern add_path
  add_route-patterns r s = ground arith

  add_route-paths :
      (r : CachedRoute regexp) (s : RouteSnapshot regexp)
      → (add_route regexp r s).paths ≡ (if is_path r then s.paths ++ r ∷ [] else s.paths)
  unfolding add_route is_path add_exact add_pattern add_path
  add_route-paths r s = ground arith

  first_of : Option (CachedRoute regexp) → Option (CachedRoute regexp) → Option (CachedRoute regexp)
  first_of none b = b
  first_of (some a) b = some a

  add_route-exact :
      (host : Bytes) (r : CachedRoute regexp) (s : RouteSnapshot regexp)
      → lookup host (add_route regexp r s).exact_domains
        ≡ first_of (lookup host s.exact_domains) (if is_exact host r then some r else none)
  unfolding add_route is_exact add_exact add_pattern add_path first_of
  add_route-exact host r s = ground (
    arith,
    lookup-insert r.normalized_host host r s.exact_domains,
    bytes_beq_iff r.normalized_host host,
  )

  pub add_routes-patterns :
      (rows : List TargetRow) (l : List (CachedRoute regexp)) (s : RouteSnapshot regexp)
      → (add_routes regexp rows l s).patterns ≡ s.patterns ++ keep is_pattern (completed rows l)
  unfolding add_routes completed keep
  add_routes-patterns rows [] s = sym (append-nil s.patterns)
  add_routes-patterns rows (r ∷ l) s =
      let r' = with_targets regexp rows r in
      add_routes-patterns rows l (add_route regexp r' s)
      ∙ (ap (λ ps. ps ++ keep is_pattern (completed rows l)) (add_route-patterns r' s)
          ∙ elim (Bool-cases (is_pattern r')) [
            | inl e ↦ rw e (append_assoc s.patterns (r' ∷ []) (keep is_pattern (completed rows l)))
            | inr e ↦ rw e refl
          ])

  pub add_routes-paths :
      (rows : List TargetRow) (l : List (CachedRoute regexp)) (s : RouteSnapshot regexp)
      → (add_routes regexp rows l s).paths ≡ s.paths ++ keep is_path (completed rows l)
  unfolding add_routes completed keep
  add_routes-paths rows [] s = sym (append-nil s.paths)
  add_routes-paths rows (r ∷ l) s =
      let r' = with_targets regexp rows r in
      add_routes-paths rows l (add_route regexp r' s)
      ∙ (ap (λ ps. ps ++ keep is_path (completed rows l)) (add_route-paths r' s)
          ∙ elim (Bool-cases (is_path r')) [
            | inl e ↦ rw e (append_assoc s.paths (r' ∷ []) (keep is_path (completed rows l)))
            | inr e ↦ rw e refl
          ])

  add_routes_exact_lem :
      (host : Bytes) (rows : List TargetRow) (l : List (CachedRoute regexp))
      (s : RouteSnapshot regexp)
      → lookup host (add_routes regexp rows l s).exact_domains
        ≡ first_of (lookup host s.exact_domains) (find_first (is_exact host) (completed rows l))
  unfolding add_routes completed find_first first_of
  add_routes_exact_lem host rows [] s = ground arith
  add_routes_exact_lem host rows (r ∷ l) s =
      let r' = with_targets regexp rows r in
      ground
        (arith, add_routes_exact_lem host rows l (add_route regexp r' s), add_route-exact host r' s)

  pub add_routes-exact :
      (host : Bytes) (rows : List TargetRow) (l : List (CachedRoute regexp))
      → lookup host (add_routes regexp rows l (new_route_snapshot regexp)).exact_domains
        ≡ find_first (is_exact host) (completed rows l)
  add_routes-exact host rows l =
      add_routes_exact_lem host rows l (new_route_snapshot regexp)
      ∙ (unfold lookup first_of in refl)

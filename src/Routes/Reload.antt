-- ===== src/Routes/Reload.antt =====
-- When `Reload` of internal/database/route_resolver.go keeps the snapshot that it has.
use netgoat.Prelude.{◌≡◌, refl, ap, Option, none, some, List, [], ◌∷◌, ◌++◌, Option-cases, inl, inr}
use netgoat.Routes.Matcher.{Regexp}
use netgoat.Routes.Snapshot.{
  RouteRow, TargetRow, RouteSnapshot, scan_route, scan_routes, load_route_snapshot, reload,
}

module _ (regexp : Regexp) where
  scan_routes_error :
      (before after : List RouteRow) (row : RouteRow)
      → scan_route regexp row ≡ none
      → scan_routes regexp (before ++ row ∷ after) ≡ none
  unfolding scan_routes
  scan_routes_error [] after row e = rw e refl
  scan_routes_error (r ∷ before) after row e = elim (Option-cases (scan_route regexp r)) [
    | inl f ↦ rw f refl
    | inr (route, f) ↦ rw (f, scan_routes_error before after row e) refl
  ]

  load_error :
      (rows : List RouteRow) (o : Option (List TargetRow))
      → scan_routes regexp rows ≡ none
      → load_route_snapshot regexp (some rows) o ≡ none
  unfolding load_route_snapshot
  load_error rows o e = rw e refl

  load_no_targets : (o : Option (List RouteRow)) → load_route_snapshot regexp o none ≡ none
  unfolding load_route_snapshot
  load_no_targets none = refl
  load_no_targets (some rows) = elim (Option-cases (scan_routes regexp rows)) [
    | inl f ↦ rw f refl
    | inr (routes, f) ↦ rw f refl
  ]

  -- One pattern that does not compile, wherever it stands among the routes, leaves the published
  -- snapshot as it was; so does a failure of either query.
  pub reload_error :
      (before after : List RouteRow) (row : RouteRow) (route_rows : Option (List RouteRow))
      (target_rows : Option (List TargetRow)) (s : RouteSnapshot regexp)
      → scan_route regexp row ≡ none
      → (reload regexp (some (before ++ row ∷ after)) target_rows s ≡ s)
        × (reload regexp none target_rows s ≡ s)
        × (reload regexp route_rows none s ≡ s)
  unfolding reload load_route_snapshot
  reload_error before after row route_rows target_rows s e = (
    ap keep_or_publish
        (load_error (before ++ row ∷ after) target_rows (scan_routes_error before after row e)),
    refl,
    ap keep_or_publish (load_no_targets route_rows),
  )
    where
      keep_or_publish : Option (RouteSnapshot regexp) → RouteSnapshot regexp
      keep_or_publish o = elim o [ none ↦ s | some s' ↦ s' ]

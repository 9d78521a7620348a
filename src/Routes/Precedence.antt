-- ===== src/Routes/Precedence.antt =====
-- Which route `Resolve` of internal/database/route_resolver.go chooses among those of the database.
use netgoat.Prelude.{
  ℕ, ◌≡◌, refl, ap, ◌∙◌, true, false, Option, none, some, List, [], ◌∷◌, if◌then◌else◌, ◌==◌, arith,
  Option-cases, Bool-cases, inl, inr, ◌>>=◌, Bool, ltb, leb, ◌&&◌, ◌||◌,
}
use netgoat.Std.Sort.{find_first, keep, best, prefer, sort_stable, find_first-sort_stable}
use netgoat.Std.Text.{Bytes, bytes_eq, has_prefix}
use netgoat.Routes.Domain.{normalize_resolver_domain}
use netgoat.Routes.Matcher.{Regexp}
use netgoat.Routes.Snapshot.{
  RouteRow, TargetRow, CachedRoute, RouteSnapshot, rune_count, comes_before, pattern_before,
  path_before, sorted, new_route_snapshot, add_routes, scan_routes, load_route_snapshot,
}
use netgoat.Routes.Collect.{
  is_exact, is_pattern, is_path, completed, add_routes-patterns, add_routes-paths, add_routes-exact,
}
use netgoat.Routes.Resolve.{
  RouteMatch, domain_match, path_match, usable, or_else, pattern_applies, first_pattern, first_path,
  resolve_domain, resolve,
}

-- The order of the choice, said anew: a route outranks another whose text is shorter, and, among
-- equals, the one with the greater id.
unfoldable pub outranks : (length id other_length other_id : ℕ) → Bool
outranks length id other_length other_id =
    ltb other_length length
    || (leb length other_length && leb other_length length && ltb id other_id)

comes_before_lem : (a i b j : ℕ) → comes_before a i b j ≡ outranks a i b j
unfolding comes_before outranks
comes_before_lem a i b j = ground arith

best-same :
    {A : Type 0} (f g : A → A → Bool) (same : (x y : A) → f x y ≡ g x y) (p : A → Bool) (l : List A)
    → best f p l ≡ best g p l
unfolding best prefer
best-same f g same p [] = refl
best-same f g same p (x ∷ l) = elim (Bool-cases (p x)) [
  | inr h ↦ rw h (best-same f g same p l)
  | inl h ↦
      rw (h, best-same f g same p l)
        (elim (Option-cases (best g p l)) [
          | inl e ↦ rw e refl
          | inr (y, e) ↦ rw (e, same y x) refl
        ])
]

comes_before_weak :
    (a i b j c k : ℕ)
    → comes_before b j a i ≡ false
    → comes_before c k b j ≡ false
    → comes_before c k a i ≡ false
unfolding comes_before
comes_before_weak a i b j c k h h' = ground arith

comes_before_asym : (a i b j : ℕ) → comes_before b j a i ≡ true → comes_before a i b j ≡ false
unfolding comes_before
comes_before_asym a i b j h = ground arith

module _ (regexp : Regexp) where
  unfoldable pub longer_pattern : CachedRoute regexp → CachedRoute regexp → Bool
  longer_pattern x y = outranks (rune_count x.domain) x.id (rune_count y.domain) y.id

  unfoldable pub longer_path : CachedRoute regexp → CachedRoute regexp → Bool
  longer_path x y = outranks (rune_count x.path_prefix) x.id (rune_count y.path_prefix) y.id

  -- The choice with no table and no sorting: the first route for exactly this host; else the route
  -- with the longest pattern that applies, or the smallest id of those; else so with path prefixes.
  -- A choice without targets counts as none.
  unfoldable pub choose_domain : List (CachedRoute regexp) → Bytes → Option RouteMatch
  choose_domain routes domain =
      or_else regexp
        (usable regexp (λ route. domain_match regexp route.exact_route_key route)
          (find_first (is_exact regexp domain) routes))
        (usable regexp (λ route. domain_match regexp route.pattern_route_key route)
          (best longer_pattern (pattern_applies regexp domain) (keep (is_pattern regexp) routes)))

  unfoldable pub choose : List (CachedRoute regexp) → Bytes → Bytes → Option RouteMatch
  choose routes domain path =
      or_else regexp
        (if domain == [] then none else choose_domain routes (normalize_resolver_domain domain))
        (if path == []
          then none
          else usable regexp (path_match regexp) (
              best longer_path (λ route. has_prefix path route.path_prefix)
                (keep (is_path regexp) routes)))

  first_pattern_lem :
      (domain : Bytes) (l : List (CachedRoute regexp))
      → first_pattern regexp domain l ≡ find_first (pattern_applies regexp domain) l
  unfolding first_pattern find_first pattern_applies
  first_pattern_lem domain [] = refl
  first_pattern_lem domain (r ∷ l) = ground (arith, first_pattern_lem domain l)

  first_path_lem :
      (path : Bytes) (l : List (CachedRoute regexp))
      → first_path regexp path l ≡ find_first (λ route. has_prefix path route.path_prefix) l
  unfolding first_path find_first
  first_path_lem path [] = refl
  first_path_lem path (r ∷ l) = ground (arith, first_path_lem path l)

  first_pattern-sorted :
      (domain : Bytes) (l : List (CachedRoute regexp))
      → first_pattern regexp domain (sort_stable (pattern_before regexp) l)
        ≡ best longer_pattern (pattern_applies regexp domain) l
  unfolding pattern_before longer_pattern
  first_pattern-sorted domain l =
      first_pattern_lem domain (sort_stable (pattern_before regexp) l)
      ∙ find_first-sort_stable (pattern_before regexp)
          (λ x y z.
            comes_before_weak (rune_count x.domain) x.id (rune_count y.domain) y.id
              (rune_count z.domain) z.id)
          (λ x y. comes_before_asym (rune_count x.domain) x.id (rune_count y.domain) y.id)
          (pattern_applies regexp domain) l
      ∙ best-same (pattern_before regexp) longer_pattern
          (λ x y. comes_before_lem (rune_count x.domain) x.id (rune_count y.domain) y.id)
          (pattern_applies regexp domain) l

  first_path-sorted :
      (path : Bytes) (l : List (CachedRoute regexp))
      → first_path regexp path (sort_stable (path_before regexp) l)
        ≡ best longer_path (λ route. has_prefix path route.path_prefix) l
  unfolding path_before longer_path
  first_path-sorted path l =
      first_path_lem path (sort_stable (path_before regexp) l)
      ∙ find_first-sort_stable (path_before regexp)
          (λ x y z.
            comes_before_weak (rune_count x.path_prefix) x.id (rune_count y.path_prefix) y.id
              (rune_count z.path_prefix) z.id)
          (λ x y. comes_before_asym (rune_count x.path_prefix) x.id (rune_count y.path_prefix) y.id)
          (λ route. has_prefix path route.path_prefix) l
      ∙ best-same (path_before regexp) longer_path
          (λ x y. comes_before_lem (rune_count x.path_prefix) x.id (rune_count y.path_prefix) y.id)
          (λ route. has_prefix path route.path_prefix) l

  resolve-sorted :
      (targets : List TargetRow) (routes : List (CachedRoute regexp)) (domain path : Bytes)
      → resolve regexp
          (sorted regexp (add_routes regexp targets routes (new_route_snapshot regexp)))
          domain
          path
        ≡ choose (completed regexp targets routes) domain path
  unfolding resolve resolve_domain sorted choose choose_domain
  resolve-sorted targets routes domain path =
      rw
        (
          add_routes-patterns regexp targets routes (new_route_snapshot regexp),
          add_routes-paths regexp targets routes (new_route_snapshot regexp),
          add_routes-exact regexp (normalize_resolver_domain domain) targets routes,
          first_pattern-sorted (normalize_resolver_domain domain)
              (keep (is_pattern regexp) (completed regexp targets routes)),
          first_path-sorted path (keep (is_path regexp) (completed regexp targets routes)),
        )
        refl

  -- `Resolve` on a loaded snapshot chooses among the routes of the database with no table and no
  -- sorting, for every domain and path: the first route for exactly this host; else, of the patterns
  -- that apply, one that no other outranks by more runes or by a smaller id; else so with path
  -- prefixes; and a choice without targets counts as none.
  pub resolve-choose :
      (rows : List RouteRow) (targets : List TargetRow) (s : RouteSnapshot regexp)
      (domain path : Bytes)
      → load_route_snapshot regexp (some rows) (some targets) ≡ some s
      → (routes : List (CachedRoute regexp)) × (scan_routes regexp rows ≡ some routes)
        × (resolve regexp s domain path ≡ choose (completed regexp targets routes) domain path)
  unfolding load_route_snapshot
  resolve-choose rows targets s domain path loaded = elim (Option-cases (scan_routes regexp rows)) [
    | inl e ↦ absurd (
        cc (
          loaded,
          ap
              (λ o. o >>= λ routes.
                some (sorted regexp (add_routes regexp targets routes (new_route_snapshot regexp))))
              e,
        ))
    | inr (routes, e) ↦
        let whole =
          ap
            (λ o. o >>= λ routes.
              some (sorted regexp (add_routes regexp targets routes (new_route_snapshot regexp))))
            e in
        let same : s
            ≡ sorted regexp (add_routes regexp targets routes (new_route_snapshot regexp)) =
          cc (loaded, whole) in
        (
          routes,
          e,
          ap (λ x. resolve regexp x domain path) same ∙ resolve-sorted targets routes domain path,
        )
  ]

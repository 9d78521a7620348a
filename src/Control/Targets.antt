-- ===== src/Control/Targets.antt =====
-- The upstreams of a route on their way from the control plane into the database:
-- `routeTargetsFromAPI` and `normalizedRouteTargets` of main.go, and `AllTargets` of
-- internal/streaming/manager.go.
use netgoat.Prelude.{
  Bool, true, false, not, ◌&&◌, ◌||◌, Option, none, some, List, [], ◌∷◌, if◌then◌else◌, ◌==◌, ◌>>=◌,
}
use netgoat.Std.Text.{Bytes, bytes_eq, codes, to_lower, trim_space}
use netgoat.Routes.Snapshot.{RouteTarget}
use netgoat.Gateway.Request.{Url, if_empty}

abbrev pub http_target : Bytes → RouteTarget
http_target url = record { url = url; health_check = codes "http" }

-- The further URLs, without those that are empty or the first one again.
unfoldable pub other_targets : Bytes → List Bytes → List RouteTarget
other_targets primary [] = []
other_targets primary (u ∷ urls) =
    let rest = other_targets primary urls in
    if not (u == []) && not (u == primary) then http_target u ∷ rest else rest

unfoldable pub route_targets_from_api : Bytes → List Bytes → List RouteTarget
route_targets_from_api primary urls =
    let rest = other_targets primary urls in
    if primary == [] then rest else http_target primary ∷ rest

-- `AllTargets`, of the legacy field and the list.
unfoldable pub all_targets : Bytes → List RouteTarget → List RouteTarget
all_targets target [] = if target == [] then [] else http_target target ∷ []
all_targets target (t ∷ targets) = t ∷ targets

unfoldable pub is_seen : Bytes → List Bytes → Bool
is_seen url [] = false
is_seen url (s ∷ seen) = s == url || is_seen url seen

unfoldable pub health_check_of : RouteTarget → Bytes
health_check_of t = if_empty (to_lower (trim_space t.health_check)) (codes "http")

unfoldable pub is_health_check : Bytes → Bool
is_health_check check = check == codes "http" || check == codes "tcp"

-- `parse` stands for `url.Parse`.
module _ (parse : Bytes → Option Url) where
  unfoldable pub is_upstream_url : Bytes → Bool
  is_upstream_url url = elim (parse url) [
    | none ↦ false
    | some u ↦ (u.scheme == codes "http" || u.scheme == codes "https") && not (u.url_host == [])
  ]

  -- The loop over the targets, with the URLs that it has taken.
  unfoldable pub normalize_targets : List Bytes → List RouteTarget → Option (List RouteTarget)
  normalize_targets seen [] = some []
  normalize_targets seen (t ∷ targets) = elim (trim_space t.url == []) [
    | true ↦ normalize_targets seen targets
    | false ↦ elim (is_upstream_url (trim_space t.url)) [
      | false ↦ none
      | true ↦ elim (is_seen (trim_space t.url) seen) [
        | true ↦ normalize_targets seen targets
        | false ↦ elim (is_health_check (health_check_of t)) [
          | false ↦ none
          | true ↦ normalize_targets (trim_space t.url ∷ seen) targets >>= λ rest.
              some (record { url = trim_space t.url; health_check = health_check_of t } ∷ rest)
        ]
      ]
    ]
  ]

  unfoldable pub some_targets : List RouteTarget → Option (List RouteTarget)
  some_targets [] = none
  some_targets (t ∷ targets) = some (t ∷ targets)

  unfoldable pub normalized_route_targets : List RouteTarget → Option (List RouteTarget)
  normalized_route_targets targets = normalize_targets [] targets >>= some_targets

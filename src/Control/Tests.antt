-- ===== src/Control/Tests.antt =====
-- Two upstreams, one of them given twice.
use netgoat.Prelude.{◌<◌, ◌≡◌, refl, Option, some, List, [], ◌∷◌, length, All}
use netgoat.Std.Text.{
  Bytes, bytes_eq, bytes_beq, codes, lower_byte, to_lower, trim_left, trim_right, trim, is_space,
  trim_space,
}
use netgoat.Routes.Snapshot.{RouteTarget}
use netgoat.Gateway.Request.{Url, if_empty}
use netgoat.Control.Targets.{
  is_seen, health_check_of, is_health_check, is_upstream_url, normalize_targets, some_targets,
  normalized_route_targets,
}
use netgoat.Control.Upstreams.{
  IsUpstream, IsDistinct, urls, IsCovered, normalized_route_targets-IsUpstream,
}

abbrev parse : Bytes → Option Url
parse s = some (record { scheme = codes "http"; url_host = s; url_path = []; request_uri = [] })

abbrev given : List RouteTarget
given =
    record { url = codes " http://a"; health_check = [] }
    ∷ record { url = codes "http://b"; health_check = codes "TCP" }
    ∷ record { url = codes "http://a "; health_check = codes "http" }
    ∷ []

abbrev normal : List RouteTarget
normal =
    record { url = codes "http://a"; health_check = codes "http" }
    ∷ record { url = codes "http://b"; health_check = codes "tcp" }
    ∷ []

normalized : normalized_route_targets parse given ≡ some normal
unfolding is_seen health_check_of is_health_check is_upstream_url normalize_targets some_targets
    normalized_route_targets bytes_beq lower_byte to_lower trim_left trim_right trim is_space
    trim_space if_empty
normalized = refl

normalized_route_targets-IsUpstream_example :
    (0 < length normal)
    × All (IsUpstream parse) normal
    × IsDistinct parse normal
    × All (IsCovered parse (urls parse normal)) given
normalized_route_targets-IsUpstream_example =
    normalized_route_targets-IsUpstream parse given normal normalized

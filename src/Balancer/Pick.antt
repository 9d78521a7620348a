-- ===== src/Balancer/Pick.antt =====
-- `Balancer` of internal/balancer/balancer.go: round robin over the healthy targets of a route. The
-- counter of a route is a `uint64`.
use netgoat.Prelude.{
  ℕ, ◌+◌, ◌%◌, ◌^◌, Option, none, some, List, [], ◌∷◌, if◌then◌else◌, ◌==◌, length, get_elem?,
}
use netgoat.Std.Dict.{Dict, lookup, insert}
use netgoat.Std.Text.{Bytes, bytes_eq}
use netgoat.Health.Worker.{Worker, healthy_targets}

abbrev pub uint64_mod : ℕ
uint64_mod = 2 ^ 64

-- `rr`: how often each route has been picked for.
abbrev pub Balancer : Type 0
Balancer = Dict Bytes ℕ

-- A missing counter reads as 0.
unfoldable pub counter : Bytes → Balancer → ℕ
counter route_key b = elim (lookup route_key b) [ none ↦ 0 | some idx ↦ idx ]

unfoldable pub pick_from : Bytes → List Bytes → Balancer → Balancer × Option Bytes
pick_from route_key [] b = (b, none)
pick_from route_key (h ∷ hs) b =
    let idx = counter route_key b in
    (insert route_key ((idx + 1) % uint64_mod) b, get_elem? (h ∷ hs) (idx % length (h ∷ hs)))

-- `none` is ErrNoHealthyTargets.
unfoldable pub pick : Worker → Bytes → List Bytes → Balancer → Balancer × Option Bytes
pick w route_key targets b = pick_from route_key (healthy_targets w targets) b

unfoldable pub without_url : Bytes → List Bytes → List Bytes
without_url exclude [] = []
without_url exclude (t ∷ ts) =
    if t == exclude then without_url exclude ts else t ∷ without_url exclude ts

unfoldable pub healthy_alternatives : Worker → List Bytes → Bytes → List Bytes
healthy_alternatives w targets exclude = without_url exclude (healthy_targets w targets)

-- ===== src/Health/Run.antt =====
-- Interleavings of `Sync` and of the probe workers of internal/health/worker.go: each takes the
-- mutex once, so what happens is a sequence of such steps, in whatever order the goroutines come.
use netgoat.Prelude.{
  ℤ, Bool, true, ◌≡◌, refl, List, [], ◌∷◌, arith, is_some, All, Bool-cases, inl, inr,
}
use netgoat.Std.Dict.{lookup, lookup-insert}
use netgoat.Std.Text.{Bytes, bytes_eq, bytes_beq_iff}
use netgoat.Health.Worker.{
  Target, Worker, new_worker, next_targets, drop_gone, sync, is_healthy, healthy_targets,
  is_current, record_probe,
}
use netgoat.Health.Tracking.{drop_gone_lem, add_new_lem}

pub data Event : Type 0 where
  synced : List Target → Event
  probed : Target → Bool → Event

unfoldable pub step : Event → Worker → Worker
step (synced ts) w = sync ts w
step (probed t found) w = record_probe t found w

unfoldable pub run : List Event → Worker → Worker
run [] w = w
run (e ∷ es) w = run es (step e w)

-- The two tables of flags have an entry for exactly the monitored upstreams.
abbrev pub IsTracked : Worker → Type 0
IsTracked w =
    (u : Bytes)
    → (is_some (lookup u w.healthy) ≡ is_some (lookup u w.targets))
      × (is_some (lookup u w.checked) ≡ is_some (lookup u w.targets))

step-IsTracked : (e : Event) (w : Worker) → IsTracked w → IsTracked (step e w)
unfolding step sync record_probe is_current
step-IsTracked (synced ts) w v u =
    let next = next_targets [] ts in
    let (h, c, _) = drop_gone_lem u next w.targets w in
    let (h', c', _) = add_new_lem u w.targets next (drop_gone next w.targets w) in
    let (p, q) = v u in (ground arith, ground arith)
step-IsTracked (probed t found) w v u =
    let same = bytes_beq_iff t.url u in
    let h = lookup-insert t.url u found w.healthy in
    let c = lookup-insert t.url u true w.checked in let (p, q) = v u in (ground arith, ground arith)

run_lem : (es : List Event) (w : Worker) → IsTracked w → IsTracked (run es w)
unfolding run
run_lem [] w v = v
run_lem (e ∷ es) w v = run_lem es (step e w) (step-IsTracked e w v)

-- From a new worker, whatever targets come and go and whatever the probes find, late results
-- included, the tables hold a flag for every monitored upstream and for no other.
pub run-IsTracked :
    (interval timeout : ℤ) (path : Bytes) (es : List Event)
    → IsTracked (run es (new_worker interval timeout path))
unfolding new_worker lookup
run-IsTracked interval timeout path es =
    run_lem es (new_worker interval timeout path) (λ u. (refl, refl))

-- `HealthyTargets` returns healthy upstreams only.
pub healthy_targets-is_healthy :
    (w : Worker) (urls : List Bytes) → All (λ u. is_healthy w u ≡ true) (healthy_targets w urls)
unfolding healthy_targets
healthy_targets-is_healthy w [] = tt
healthy_targets-is_healthy w (u ∷ urls) = elim (Bool-cases (is_healthy w u)) [
  | inl good ↦ rw good (good, healthy_targets-is_healthy w urls)
  | inr bad ↦ rw bad (healthy_targets-is_healthy w urls)
]

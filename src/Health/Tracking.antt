-- ===== src/Health/Tracking.antt =====
-- What `Sync` and `recordProbe` of internal/health/worker.go do to the health of every upstream.
use netgoat.Prelude.{
  Bool, true, false, not, ◌&&◌, ◌≡◌, refl, ◌∙◌, none, some, List, [], ◌∷◌, arith, if◌then◌else◌,
  is_some,
}
use netgoat.Std.Dict.{Dict, lookup, lookup-insert, lookup-delete}
use netgoat.Std.Text.{Bytes, bytes_eq, bytes_beq, bytes_beq_iff}
use netgoat.Health.Worker.{
  Target, Worker, next_targets, drop_one, drop_gone, add_one, add_new, sync, flag, is_healthy,
  is_current, record_probe,
}

module _ (u : Bytes) where
  drop_one_lem :
      (next : Dict Bytes Target) (url : Bytes) (w : Worker)
      → (lookup u (drop_one next url w).healthy
          ≡ (if bytes_beq url u && not (is_some (lookup u next)) then none else lookup u w.healthy))
        × (lookup u (drop_one next url w).checked ≡ (
            if bytes_beq url u && not (is_some (lookup u next)) then none else lookup u w.checked))
        × ((drop_one next url w).targets ≡ w.targets)
  unfolding drop_one
  drop_one_lem next url w =
      let same = bytes_beq_iff url u in
      let h = lookup-delete url u w.healthy in
      let c = lookup-delete url u w.checked in (ground arith, ground arith, ground arith)

  pub drop_gone_lem :
      (next old : Dict Bytes Target) (w : Worker)
      → (lookup u (drop_gone next old w).healthy ≡ (
          if is_some (lookup u old) && not (is_some (lookup u next))
          then none
          else lookup u w.healthy))
        × (lookup u (drop_gone next old w).checked ≡ (
            if is_some (lookup u old) && not (is_some (lookup u next))
            then none
            else lookup u w.checked))
        × ((drop_gone next old w).targets ≡ w.targets)
  unfolding drop_gone lookup
  drop_gone_lem next [] w = (refl, refl, refl)
  drop_gone_lem next ((url, t) ∷ old) w =
      let (h, c, same) = drop_gone_lem next old (drop_one next url w) in
      let (h', c', same') = drop_one_lem next url w in
      (h ∙ ground arith, c ∙ ground arith, same ∙ same')

  add_one_lem :
      (old : Dict Bytes Target) (url : Bytes) (w : Worker)
      → (lookup u (add_one old url w).healthy ≡ (
          if bytes_beq url u && not (is_some (lookup u old))
          then some true
          else lookup u w.healthy))
        × (lookup u (add_one old url w).checked ≡ (
            if bytes_beq url u && not (is_some (lookup u old))
            then some false
            else lookup u w.checked))
        × ((add_one old url w).targets ≡ w.targets)
  unfolding add_one
  add_one_lem old url w =
      let same = bytes_beq_iff url u in
      let h = lookup-insert url u true w.healthy in
      let c = lookup-insert url u false w.checked in (ground arith, ground arith, ground arith)

  pub add_new_lem :
      (old next : Dict Bytes Target) (w : Worker)
      → (lookup u (add_new old next w).healthy ≡ (
          if is_some (lookup u next) && not (is_some (lookup u old))
          then some true
          else lookup u w.healthy))
        × (lookup u (add_new old next w).checked ≡ (
            if is_some (lookup u next) && not (is_some (lookup u old))
            then some false
            else lookup u w.checked))
        × ((add_new old next w).targets ≡ w.targets)
  unfolding add_new lookup
  add_new_lem old [] w = (refl, refl, refl)
  add_new_lem old ((url, t) ∷ next) w =
      let (h, c, same) = add_new_lem old next (add_one old url w) in
      let (h', c', same') = add_one_lem old url w in
      (h ∙ ground arith, c ∙ ground arith, same ∙ same')

-- After `Sync` an upstream that was monitored and still is has the health that it had, and every
-- other one counts as healthy: a new one until its first probe, and one that is not monitored.
is_healthy-sync :
    (ts : List Target) (w : Worker) (u : Bytes)
    → is_healthy (sync ts w) u ≡ (
        if is_some (lookup u w.targets) && is_some (lookup u (next_targets [] ts))
        then is_healthy w u
        else true)
unfolding sync is_healthy flag
is_healthy-sync ts w u =
    let next = next_targets [] ts in
    let (h, c, _) = drop_gone_lem u next w.targets w in
    let (h', c', _) = add_new_lem u w.targets next (drop_gone next w.targets w) in ground arith

-- The result of a probe counts only if its target is still monitored with the same kind of check;
-- it then decides the health of that upstream, and of no other.
is_healthy-record_probe :
    (t : Target) (found : Bool) (w : Worker) (u : Bytes)
    → is_healthy (record_probe t found w) u
      ≡ (if bytes_beq t.url u && is_current t w then found else is_healthy w u)
unfolding record_probe is_current is_healthy flag
is_healthy-record_probe t found w u = ground (
  arith,
  bytes_beq_iff t.url u,
  lookup-insert t.url u found w.healthy,
  lookup-insert t.url u true w.checked,
)

-- After `Sync` an upstream that was monitored and still is has the health that it had, and every
-- other one counts as healthy. After the result of a probe an upstream has the health that was found
-- if the probe was its own and the target is still monitored with the same kind of check, and else
-- the health that it had.
pub is_healthy_next :
    (ts : List Target) (t : Target) (found : Bool) (w : Worker) (u : Bytes)
    → (is_healthy (sync ts w) u ≡ (
        if is_some (lookup u w.targets) && is_some (lookup u (next_targets [] ts))
        then is_healthy w u
        else true))
      × (is_healthy (record_probe t found w) u
          ≡ (if bytes_beq t.url u && is_current t w then found else is_healthy w u))
is_healthy_next ts t found w u = (is_healthy-sync ts w u, is_healthy-record_probe t found w u)

-- ===== src/Health/Worker.antt =====
-- `Worker` of internal/health/worker.go: which upstreams are monitored, which have been probed, and
-- which were found healthy. The probes themselves are network calls; what a probe found is an
-- argument.
use netgoat.Prelude.{
  ℕ, ◌*◌, ◌^◌, Bool, true, false, not, ◌&&◌, none, some, List, [], ◌∷◌, if◌then◌else◌, ◌==◌, ℤ,
  or_default, is_some,
}
use netgoat.Std.Dict.{Dict, lookup, insert, delete}
use netgoat.Std.Text.{Bytes, bytes_eq, bytes_beq, codes, to_lower, trim_space}

pub record Target : Type 0 where
  pub url : Bytes
  pub health_check : Bytes

unfoldable pub target_beq : Target → Target → Bool
target_beq a b = bytes_beq a.url b.url && bytes_beq a.health_check b.health_check

pub record Worker : Type 0 where
  pub healthy : Dict Bytes Bool
  pub checked : Dict Bytes Bool
  pub targets : Dict Bytes Target
  pub interval : ℕ
  pub timeout : ℕ
  pub path : Bytes

unfoldable pub new_worker : ℤ → ℤ → Bytes → Worker
new_worker interval timeout path = record {
  healthy = [];
  checked = [];
  targets = [];
  interval = or_default interval (10 * 10 ^ 9);
  timeout = or_default timeout (3 * 10 ^ 9);
  path = if path == [] then codes "/" else path;
}

unfoldable pub check_of : Bytes → Bytes
check_of health_check =
    let check = to_lower (trim_space health_check) in if check == [] then codes "http" else check

-- The first loop of `Sync`: the new table of targets.
unfoldable pub next_targets : Dict Bytes Target → List Target → Dict Bytes Target
next_targets next [] = next
next_targets next (t ∷ ts) =
    next_targets
      (if t.url == []
        then next
        else insert t.url (record { url = t.url; health_check = check_of t.health_check }) next)
      ts

-- The second loop: what is known of targets that are gone is forgotten.
unfoldable pub drop_one : Dict Bytes Target → Bytes → Worker → Worker
drop_one next url w =
    if is_some (lookup url next)
    then w
    else record w { healthy = delete url w.healthy; checked = delete url w.checked }

unfoldable pub drop_gone : Dict Bytes Target → Dict Bytes Target → Worker → Worker
drop_gone next [] w = w
drop_gone next ((url, _) ∷ old) w = drop_gone next old (drop_one next url w)

-- The third loop: a new target counts as healthy and not yet probed.
unfoldable pub add_one : Dict Bytes Target → Bytes → Worker → Worker
add_one old url w =
    if is_some (lookup url old)
    then w
    else record w { healthy = insert url true w.healthy; checked = insert url false w.checked }

unfoldable pub add_new : Dict Bytes Target → Dict Bytes Target → Worker → Worker
add_new old [] w = w
add_new old ((url, _) ∷ next) w = add_new old next (add_one old url w)

unfoldable pub sync : List Target → Worker → Worker
sync targets w =
    let next = next_targets [] targets in
    let w' = add_new w.targets next (drop_gone next w.targets w) in record w' { targets = next }

-- A missing entry of `checked` or `healthy` reads as false.
unfoldable pub flag : Bytes → Dict Bytes Bool → Bool
flag url d = elim (lookup url d) [ none ↦ false | some b ↦ b ]

unfoldable pub is_healthy : Worker → Bytes → Bool
is_healthy w url =
    if not (is_some (lookup url w.targets))
    then true
    else if not (flag url w.checked)
    then true
    else flag url w.healthy

unfoldable pub healthy_targets : Worker → List Bytes → List Bytes
healthy_targets w [] = []
healthy_targets w (u ∷ urls) =
    if is_healthy w u then u ∷ healthy_targets w urls else healthy_targets w urls

-- Whether a probe of this target is still of interest: `exists && current == target`.
unfoldable pub is_current : Target → Worker → Bool
is_current target w = elim (lookup target.url w.targets) [
  | none ↦ false
  | some current ↦ target_beq current target
]

unfoldable pub record_probe : Target → Bool → Worker → Worker
record_probe target healthy w =
    if is_current target w
    then record w {
      healthy = insert target.url healthy w.healthy;
      checked = insert target.url true w.checked;
    }
    else w

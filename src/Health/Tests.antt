-- ===== src/Health/Tests.antt =====
-- The health worker at small inputs.
use netgoat.Prelude.{
  ◌≡◌, refl, true, false, List, [], ◌∷◌, pos, ◌&&◌, if◌then◌else◌, is_some, nat_eq,
}
use netgoat.Std.Dict.{lookup, insert, delete}
use netgoat.Std.Text.{bytes_eq, bytes_beq, codes, to_lower, trim_space}
use netgoat.Health.Worker.{
  Target, Worker, target_beq, new_worker, check_of, next_targets, drop_one, drop_gone, add_one,
  add_new, sync, flag, is_healthy, is_current, record_probe,
}
use netgoat.Health.Tracking.{is_healthy_next}
use netgoat.Health.Run.{Event, synced, probed, step, run, IsTracked, run-IsTracked}

program : Unit {0}
unfolding lookup insert delete bytes_beq to_lower trim_space target_beq new_worker check_of
    next_targets drop_one drop_gone add_one add_new sync flag is_healthy is_current record_probe
    step run
program = tt

abbrev upstream : Target
upstream = record { url = codes "http://a"; health_check = codes "http" }

abbrev worker : Worker
worker = new_worker (pos 10) (pos 3) []

abbrev events : List Event
events =
    synced (record upstream { health_check = codes " HTTP" } ∷ [])
    ∷ probed upstream false
    ∷ probed (record { url = codes "http://b"; health_check = codes "http" }) false
    ∷ []

one_down :
    (is_healthy (run events worker) (codes "http://a") ≡ false)
    × (is_healthy (run events worker) (codes "http://b") ≡ true)
unfolding program
one_down = (refl, refl)

is_healthy_next_example :
    (is_healthy (sync [] (run events worker)) (codes "http://a") ≡ (
      if is_some (lookup (codes "http://a") (run events worker).targets)
        && is_some (lookup (codes "http://a") (next_targets [] []))
      then is_healthy (run events worker) (codes "http://a")
      else true))
    × (is_healthy (record_probe upstream true (run events worker)) (codes "http://a") ≡ (
        if bytes_beq (codes "http://a") (codes "http://a")
          && is_current upstream (run events worker)
        then true
        else is_healthy (run events worker) (codes "http://a")))
is_healthy_next_example = is_healthy_next [] upstream true (run events worker) (codes "http://a")

run-IsTracked_example : IsTracked (run events (new_worker (pos 10) (pos 3) []))
run-IsTracked_example = run-IsTracked (pos 10) (pos 3) [] events

-- ===== src/Traffic/Admission.antt =====
-- How many requests the `Queue` of internal/traffic/limiter.go lets run and wait.
use netgoat.Prelude.{◌+◌, ◌≤◌, ◌≡◌, refl, arith, ℤ}
use netgoat.Traffic.Queue.{
  Queue, new_queue, System, idle, Step, enter, arrive, refuse, park, wake, timed_out, leave,
  release, Reach, here, next,
}

-- The channel holds a value for every request that runs, the count one for every request that waits
-- or leaves, and both are within their bounds.
unfoldable pub IsAdmitted : Queue → System → Type 0
IsAdmitted q s =
    (s.queue.sem ≡ s.running)
    × (s.running ≤ q.capacity)
    × (s.queue.waiting ≡ s.parked + s.leaving)
    × (s.parked + s.leaving ≤ q.max_queued)
    × (s.queue.capacity ≡ q.capacity)
    × (s.queue.max_queued ≡ q.max_queued)

step_lem : (q : Queue) (s t : System) → Step s t → IsAdmitted q s → IsAdmitted q t
unfolding IsAdmitted
step_lem q s t (enter h) v = ground (arith, h, v)
step_lem q s t (arrive h) v = v
step_lem q s t (refuse h k) v = v
step_lem q s t (park h k) v = ground (arith, h, k, v)
step_lem q s t (wake h k) v = ground (arith, h, k, v)
step_lem q s t (timed_out h) v = ground (arith, h, v)
step_lem q s t (leave h) v = ground (arith, h, v)
step_lem q s t (release h) v = ground (arith, h, v)

reach_lem : (q : Queue) (start s : System) → Reach start s → IsAdmitted q start → IsAdmitted q s
reach_lem q start s here v = v
reach_lem q start t (next {s = s} r step) v = step_lem q s t step (reach_lem q start s r v)

-- In whatever order the goroutines go on: at most as many requests run as the queue has places, at
-- most `max_queued` others wait or are about to leave `Acquire`, and the channel and the count agree
-- with them, so that no place is lost and none is given out twice.
pub Reach-IsAdmitted :
    (max_concurrent max_queued timeout : ℤ) (s : System)
    → Reach (idle (new_queue max_concurrent max_queued timeout)) s
    → IsAdmitted (new_queue max_concurrent max_queued timeout) s
unfolding idle new_queue IsAdmitted
Reach-IsAdmitted max_concurrent max_queued timeout s r =
    let q = new_queue max_concurrent max_queued timeout in
    reach_lem q (idle q) s r (refl, omega arith, refl, omega arith, refl, refl)

-- ===== src/Traffic/Queue.antt =====
-- `Queue` of internal/traffic/limiter.go: requests that run, requests that wait for one to end, and
-- no more of either than is allowed. `Acquire` is taken apart at its uses of the semaphore channel
-- and of the mutex, between which other goroutines run.
use netgoat.Prelude.{ℕ, ◌+◌, ◌-◌, ◌*◌, ◌^◌, ◌≤◌, ◌<◌, ℤ, or_default, pos_part}

-- `sem` is the number of values in the channel.
pub record Queue : Type 0 where
  pub capacity : ℕ
  pub max_queued : ℕ
  pub timeout : ℕ
  pub sem : ℕ
  pub waiting : ℕ

unfoldable pub new_queue : ℤ → ℤ → ℤ → Queue
new_queue max_concurrent max_queued timeout = record {
  capacity = or_default max_concurrent 1;
  max_queued = pos_part max_queued;
  timeout = or_default timeout (5 * 10 ^ 9);
  sem = 0;
  waiting = 0;
}

-- The goroutines inside of `Acquire`: `arriving` have found the channel full, `parked` wait in the
-- second select, `leaving` are past it and have not yet run the deferred function. `running` have
-- the right to run and have not called `release`.
pub record System : Type 0 where
  pub queue : Queue
  pub arriving : ℕ
  pub parked : ℕ
  pub leaving : ℕ
  pub running : ℕ

unfoldable pub idle : Queue → System
idle q = record { queue = q; arriving = 0; parked = 0; leaving = 0; running = 0 }

-- A goroutine that waits and one that runs can leave `Acquire` in any order with the deferred
-- function of others. `timed_out` is also the end of the request's context.
pub data Step (s : System) : System → Type 0 where
  enter :
      s.queue.sem < s.queue.capacity
      → Step s
          (record s { queue = record (s.queue) { sem = s.queue.sem + 1 }; running = s.running + 1 })
  arrive : s.queue.capacity ≤ s.queue.sem → Step s (record s { arriving = s.arriving + 1 })
  refuse :
      0 < s.arriving
      → s.queue.max_queued ≤ s.queue.waiting
      → Step s (record s { arriving = s.arriving - 1 })
  park :
      0 < s.arriving
      → s.queue.waiting < s.queue.max_queued
      → Step s (record s {
        queue = record (s.queue) { waiting = s.queue.waiting + 1 };
        arriving = s.arriving - 1;
        parked = s.parked + 1;
      })
  wake :
      0 < s.parked
      → s.queue.sem < s.queue.capacity
      → Step s (record s {
        queue = record (s.queue) { sem = s.queue.sem + 1 };
        parked = s.parked - 1;
        leaving = s.leaving + 1;
        running = s.running + 1;
      })
  timed_out : 0 < s.parked → Step s (record s { parked = s.parked - 1; leaving = s.leaving + 1 })
  leave :
      0 < s.leaving
      → Step s (record s {
        queue = record (s.queue) { waiting = s.queue.waiting - 1 };
        leaving = s.leaving - 1;
      })
  release :
      0 < s.running
      → Step s
          (record s { queue = record (s.queue) { sem = s.queue.sem - 1 }; running = s.running - 1 })

pub data Reach (start : System) : System → Type 0 where
  here : Reach start start
  next : {s t : System} → Reach start s → Step s t → Reach start t

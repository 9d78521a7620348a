-- ===== src/Stream/Tests.antt =====
-- A manager whose snapshots hold a text, with a JSON of three parts.
use netgoat.Prelude.{
  ℕ, negsuc, ◌≤◌, ◌<◌, ◌≡◌, refl, true, Option, none, some, [], ◌∷◌, All, arith, pos,
}
use netgoat.Std.Int64.{int64_of}
use netgoat.Std.Text.{Bytes, codes}
use netgoat.Stream.Manager.{
  Snapshot, Json, Message, Manager, new_manager, manager_of, handle_message,
}
use netgoat.Stream.Run.{
  IsConsistent, message, subscription, reading, status, closing, run, run-IsConsistent,
  new_manager-handle_message,
}
use netgoat.Stream.Poll.{
  ApiConfig, duration_or, stream_settings_from_config, DomainPollState, Fetched, poll_failed,
  unchanged, changed, poll_domains, delays,
}
use netgoat.Stream.Retry.{delays-bounded, IsTaken, poll_domains-IsTaken}

abbrev read_parts : Bytes → Option (Snapshot Bytes)
read_parts [] = none
read_parts (v ∷ []) = none
read_parts (v ∷ t ∷ content) = some (record { version = v; timestamp = t; content = content })

abbrev parts : Json Bytes
parts = record {
  marshal = λ s. s.version ∷ s.timestamp ∷ s.content;
  unmarshal = read_parts;
  nothing = [];
}

abbrev sent : Message
sent = record {
  kind = codes "snapshot";
  payload = 3 ∷ 9 ∷ codes "routes";
  message_version = 7;
  message_time = 10;
}

abbrev opened_manager : Manager Bytes
opened_manager = manager_of true none (record { version = 0; timestamp = 1; content = [] })

run-IsConsistent_example :
    let m = new_manager parts true (some (2 ∷ 1 ∷ [])) 5 in
    let calls = subscription ∷ message sent true ∷ reading 0 ∷ status true none ∷ closing ∷ [] in
    IsConsistent (run parts calls m) × (m.current_version ≤ (run parts calls m).current_version)
run-IsConsistent_example =
    run-IsConsistent parts true (some (2 ∷ 1 ∷ [])) 5
      (subscription ∷ message sent true ∷ reading 0 ∷ status true none ∷ closing ∷ [])

newer : opened_manager.current_version < 7
unfolding manager_of
newer = omega arith

with_file : opened_manager.recovery_file ≡ true
unfolding manager_of
with_file = refl

new_manager-handle_message_example :
    let m' = (handle_message parts sent true opened_manager).1 in
    let restarted = new_manager parts true m'.disk 11 in
    (restarted.current ≡ m'.current) × (restarted.current_version ≡ 7)
new_manager-handle_message_example =
    new_manager-handle_message parts sent opened_manager
      (record { version = 3; timestamp = 9; content = codes "routes" }) 11 with_file newer refl refl
      refl

abbrev hasty : ApiConfig
hasty = record {
  poll_interval_seconds = pos 30;
  connection_timeout_seconds = pos 0;
  max_retry_interval_seconds = pos 20;
}

delays-bounded_example :
    let s = stream_settings_from_config (some hasty) in
    (low : ℕ) × (high : ℕ) × (s.poll_interval ≡ pos low)
    × (s.max_retry_interval ≡ pos high)
    × (0 < low)
    × All
        (λ delay. (n : ℕ) × (delay ≡ pos n) × (low ≤ n) × (n ≤ high))
        (delays s s.poll_interval (poll_failed ∷ poll_failed ∷ changed ∷ unchanged ∷ []))
delays-bounded_example =
    delays-bounded hasty (poll_failed ∷ poll_failed ∷ changed ∷ unchanged ∷ []) (omega arith)
      (omega arith)

-- 10 ^ 10 seconds come out as a duration that is not positive, after which the loop does not wait.
wrapped_interval :
    (stream_settings_from_config
      (some (record hasty { poll_interval_seconds = pos 10000000000 }))).poll_interval
    ≡ negsuc 8446744073709551615
unfolding stream_settings_from_config duration_or int64_of
wrapped_interval = refl

abbrev poller : DomainPollState
poller = record { digest = none; last_version = 4 }

abbrev response : Option Fetched
response = some (record { fetched_status = 200; fetched_body = codes "routes" })

behind : opened_manager.current_version ≤ 4
unfolding manager_of
behind = omega arith

poll_domains-IsTaken_example :
    IsTaken parts some
      (λ s. s)
      (λ s. (s, refl))
      3
      response
      poller
      opened_manager
      (poll_domains parts some (λ s. s) 3 true response poller opened_manager)
poll_domains-IsTaken_example =
    poll_domains-IsTaken parts some (λ s. s) (λ s. (s, refl)) 3 true response poller opened_manager
      behind

-- ===== src/Stream/Poll.antt =====
-- The polling of the control plane in main.go: `streamSettingsFromConfig`, `pollDomains` and the loop
-- of `connectToAPIStream`. The request, the decoding of its response and the digest are parameters.
use netgoat.Prelude.{
  ℕ, ◌+◌, ◌*◌, ◌^◌, Bool, false, ◌&&◌, Option, none, some, List, [], ◌∷◌, if◌then◌else◌, ◌==◌,
  nat_eq, leb, length, ℤ, pos, negsuc, zero, suc,
}
use netgoat.Std.Int64.{int64_of, twice, less_int}
use netgoat.Std.Text.{Bytes, bytes_eq, codes}
use netgoat.Stream.Manager.{Json, Message, Manager, handle_message}

abbrev pub second : ℕ
second = 10 ^ 9

-- A `time.Duration`: nanoseconds in a signed number of 64 bits.
pub record StreamPollSettings : Type 0 where
  pub poll_interval : ℤ
  pub request_timeout : ℤ
  pub max_retry_interval : ℤ

-- The configured numbers of seconds; a number that is not positive stands for the default.
pub record ApiConfig : Type 0 where
  pub poll_interval_seconds : ℤ
  pub connection_timeout_seconds : ℤ
  pub max_retry_interval_seconds : ℤ

unfoldable pub at_least : ℤ → ℤ → ℤ
at_least low n = if less_int n low then low else n

-- `time.Duration(seconds) * time.Second`, which wraps around, for a positive number of seconds.
unfoldable pub duration_or : ℤ → ℕ → ℤ
duration_or (pos zero) default = pos (default * second)
duration_or (pos (suc n)) default = int64_of (suc n * second)
duration_or (negsuc n) default = pos (default * second)

unfoldable pub stream_settings_from_config : Option ApiConfig → StreamPollSettings
stream_settings_from_config none = record {
  poll_interval = pos (5 * second);
  request_timeout = pos (10 * second);
  max_retry_interval = pos (120 * second);
}
stream_settings_from_config (some cfg) = record {
  poll_interval = duration_or cfg.poll_interval_seconds 5;
  request_timeout = duration_or cfg.connection_timeout_seconds 10;
  max_retry_interval =
      at_least (duration_or cfg.poll_interval_seconds 5)
        (duration_or cfg.max_retry_interval_seconds 120);
}

pub record DomainPollState : Type 0 where
  pub digest : Option Bytes
  pub last_version : ℕ

abbrev pub max_domains_response_bytes : ℕ
max_domains_response_bytes = 8 * 2 ^ 20

-- What a request brings: nothing, or a status and a body.
pub record Fetched : Type 0 where
  pub fetched_status : ℕ
  pub fetched_body : Bytes

-- What a poll does: it fails, finds what it has already applied, or applies a configuration.
pub data PollResult : Type 0 where
  poll_failed : PollResult
  unchanged : PollResult
  changed : PollResult

module _ {Content : Type 0} (json : Json Content) (decode : Bytes → Option Content)
    (sum : Bytes → Bytes) where
  -- The body of a response that can be used.
  unfoldable pub domains_body : Option Fetched → Option Bytes
  domains_body none = none
  domains_body (some f) =
      if f.fetched_status == 200 && leb (length f.fetched_body) max_domains_response_bytes
      then some f.fetched_body
      else none

  unfoldable pub next_version : ℕ → ℕ → ℕ
  next_version now last_version = if leb now last_version then last_version + 1 else now

  -- The digest is that of the snapshot without a version and a time.
  unfoldable pub digest_of : Content → Bytes
  digest_of content = sum (json.marshal (record { version = 0; timestamp = 0; content = content }))

  unfoldable pub snapshot_message : ℕ → ℕ → Content → Message
  snapshot_message version now content = record {
    kind = codes "snapshot";
    payload = json.marshal (record { version = version; timestamp = now; content = content });
    message_version = version;
    message_time = now;
  }

  unfoldable pub is_known : Option Bytes → Bytes → Bool
  is_known none digest = false
  is_known (some old) digest = digest == old

  unfoldable pub apply_domains :
      ℕ
      → Bool
      → Content
      → DomainPollState
      → Manager Content
      → PollResult × DomainPollState × Manager Content
  apply_domains now written content state m =
      let digest = digest_of content in
      if is_known state.digest digest
      then (unchanged, state, m)
      else (let version = next_version now state.last_version in
          let (ok, m') = handle_message json (snapshot_message version now content) written m in
          if ok
          then (changed, record { digest = some digest; last_version = version }, m')
          else (poll_failed, state, m'))

  -- `pollDomains` on what its request brings at the time `now`.
  unfoldable pub poll_domains :
      ℕ
      → Bool
      → Option Fetched
      → DomainPollState
      → Manager Content
      → PollResult × DomainPollState × Manager Content
  poll_domains now written fetched state m = elim (domains_body fetched) [
    | none ↦ (poll_failed, state, m)
    | some body ↦ elim (decode body) [
      | none ↦ (poll_failed, state, m)
      | some content ↦ apply_domains now written content state m
    ]
  ]

-- One turn of the loop: the delay before the next poll, and the interval after a further failure.
unfoldable pub doubled : StreamPollSettings → ℤ → ℤ
doubled settings retry_interval =
    if less_int retry_interval settings.max_retry_interval
    then (if less_int settings.max_retry_interval (twice retry_interval)
        then settings.max_retry_interval
        else twice retry_interval)
    else retry_interval

unfoldable pub retry_step : StreamPollSettings → PollResult → ℤ → ℤ × ℤ
retry_step settings poll_failed retry_interval = (retry_interval, doubled settings retry_interval)
retry_step settings unchanged retry_interval = (settings.poll_interval, settings.poll_interval)
retry_step settings changed retry_interval = (settings.poll_interval, settings.poll_interval)

-- The delays of the loop, for the results of its polls.
unfoldable pub delays : StreamPollSettings → ℤ → List PollResult → List ℤ
delays settings retry_interval [] = []
delays settings retry_interval (result ∷ results) =
    let (delay, retry_interval') = retry_step settings result retry_interval in
    delay ∷ delays settings retry_interval' results

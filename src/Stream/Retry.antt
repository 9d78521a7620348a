-- ===== src/Stream/Retry.antt =====
-- How often main.go asks the control plane, and that what it applies is taken.
use netgoat.Prelude.{
  ℕ, ◌≤◌, ◌<◌, ◌≡◌, ◌≢◌, ◌⊎◌, refl, Bool, false, Bool-cases, inl, inr, Option, some, Option-cases,
  List, [], ◌∷◌, leb, All, arith, ℤ, pos, negsuc, zero, suc, ◌*◌, ◌^◌, ltb,
}
use netgoat.Std.Int64.{int64_of_small, twice, less_int}
use netgoat.Std.Text.{Bytes, bytes_beq, bytes_eq}
use netgoat.Stream.Manager.{
  Snapshot, Json, Manager, handle_message, broadcast, save_to_disk, take_snapshot,
}
use netgoat.Stream.Poll.{
  StreamPollSettings, ApiConfig, at_least, second, duration_or, stream_settings_from_config,
  DomainPollState, Fetched, PollResult, poll_failed, unchanged, changed, domains_body, next_version,
  digest_of, snapshot_message, is_known, apply_domains, poll_domains, doubled, retry_step, delays,
}

-- The settings are positive numbers of nanoseconds, far from the bound of 64 bits.
IsSound : StreamPollSettings → ℕ → ℕ → Type 0
IsSound s low high =
    (s.poll_interval ≡ pos low)
    × (s.max_retry_interval ≡ pos high)
    × (0 < low)
    × (low ≤ high)
    × (high < 2 ^ 62)

-- A number of seconds that is not positive, which stands for a default, or is less than 2 ^ 32.
abbrev pub IsModest : ℤ → Type 0
IsModest (pos n) = n < 2 ^ 32
IsModest (negsuc n) = Unit

duration_or-pos :
    (seconds : ℤ) (default : ℕ)
    → IsModest seconds
    → 0 < default
    → default < 2 ^ 32
    → (n : ℕ) × (duration_or seconds default ≡ pos n) × (0 < n) × (n < 2 ^ 62)
unfolding duration_or
duration_or-pos (pos zero) default m some_default small =
    (default * second, refl, omega arith, omega (arith, small))
duration_or-pos (pos (suc n)) default m some_default small = (
  suc n * second,
  int64_of_small (suc n * second) (omega (arith, m)),
  omega arith,
  omega (arith, m),
)
duration_or-pos (negsuc n) default m some_default small =
    (default * second, refl, omega arith, omega (arith, small))

stream_settings-IsSound :
    (poll connect retry : ℤ)
    → IsModest poll
    → IsModest retry
    → (low : ℕ) × (high : ℕ) × IsSound
        (stream_settings_from_config (
          some (record {
            poll_interval_seconds = poll;
            connection_timeout_seconds = connect;
            max_retry_interval_seconds = retry;
          })))
        low
        high
unfolding stream_settings_from_config IsSound at_least less_int
stream_settings-IsSound poll connect retry m m' =
    let (p, is_p, some_p, small_p) = duration_or-pos poll 5 m (omega arith) (omega arith) in
    let (q, is_q, some_q, small_q) = duration_or-pos retry 120 m' (omega arith) (omega arith) in
    elim (Bool-cases (ltb q p)) [
      | inl e ↦ (p, p, (is_p, rw (is_p, is_q, e) refl, some_p, omega arith, small_p))
      | inr e ↦ (p, q, (is_p, rw (is_p, is_q, e) refl, some_p, ground (arith, e), small_q))
    ]

abbrev Within : ℕ → ℕ → ℤ → Type 0
Within low high delay = (n : ℕ) × (delay ≡ pos n) × (low ≤ n) × (n ≤ high)

doubled-Within :
    (s : StreamPollSettings) (low high : ℕ) (retry : ℤ)
    → IsSound s low high
    → Within low high retry
    → Within low high (doubled s retry)
unfolding IsSound doubled less_int twice
doubled-Within s low high retry (is_low, is_high, positive, order, small) (n, is_n, above, below) =
    let fits = int64_of_small (n * 2) (omega (arith, below, small)) in
    elim (Bool-cases (ltb n high)) [
      | inr e ↦ rw (is_n, is_high, e) (n, refl, above, below)
      | inl e ↦ elim (Bool-cases (ltb high (n * 2))) [
        | inl over ↦ rw (is_n, is_high, e, fits, over) (high, refl, order, omega arith)
        | inr under ↦
            rw (is_n, is_high, e, fits, under)
              (n * 2, refl, omega (arith, above), ground (arith, under))
      ]
    ]

delays_lem :
    (s : StreamPollSettings) (low high : ℕ) (retry : ℤ) (results : List PollResult)
    → IsSound s low high
    → Within low high retry
    → All (Within low high) (delays s retry results)
unfolding delays retry_step IsSound
delays_lem s low high retry [] sound v = tt
delays_lem s low high retry (poll_failed ∷ results) sound v = (
  v,
  delays_lem s low high (doubled s retry) results sound (doubled-Within s low high retry sound v),
)
delays_lem s low high retry (unchanged ∷ results) sound v =
    let (is_low, is_high, positive, order, small) = sound in
    let at : Within low high s.poll_interval = (low, is_low, omega arith, order) in
    (at, delays_lem s low high s.poll_interval results sound at)
delays_lem s low high retry (changed ∷ results) sound v =
    let (is_low, is_high, positive, order, small) = sound in
    let at : Within low high s.poll_interval = (low, is_low, omega arith, order) in
    (at, delays_lem s low high s.poll_interval results sound at)

-- Where the two configured numbers of seconds are less than 2 ^ 32 (or not positive, for the default),
-- the loop waits between two polls at least the interval of polling, which is positive, and at most
-- the largest interval of a retry, whatever the polls find: no product and no doubling wraps around.
pub delays-bounded :
    (cfg : ApiConfig) (results : List PollResult)
    → IsModest cfg.poll_interval_seconds
    → IsModest cfg.max_retry_interval_seconds
    → let s = stream_settings_from_config (some cfg) in
      (low : ℕ) × (high : ℕ) × (s.poll_interval ≡ pos low)
      × (s.max_retry_interval ≡ pos high)
      × (0 < low)
      × All
          (λ delay. (n : ℕ) × (delay ≡ pos n) × (low ≤ n) × (n ≤ high))
          (delays s s.poll_interval results)
unfolding IsSound
delays-bounded cfg results modest modest' =
    let s = stream_settings_from_config (some cfg) in
    let (low, high, sound) =
      stream_settings-IsSound cfg.poll_interval_seconds cfg.connection_timeout_seconds
        cfg.max_retry_interval_seconds modest modest' in
    let (is_low, is_high, positive, order, small) = sound in
    (
      low,
      high,
      is_low,
      is_high,
      positive,
      delays_lem s low high s.poll_interval results sound (low, is_low, omega arith, order),
    )

module _ {Content : Type 0} (json : Json Content) (decode : Bytes → Option Content)
    (sum : Bytes → Bytes)
    (readable : (s : Snapshot Content)
      → (t : Snapshot Content) × (json.unmarshal (json.marshal s) ≡ some t)) where
  -- The manager holds what was fetched, as it reads back from JSON, under the poller's version.
  unfoldable pub Holds : ℕ → Option Fetched → Manager Content → DomainPollState → Type 0
  Holds now fetched m state =
      (body : Bytes) × (content : Content) × (t : Snapshot Content) × (domains_body json decode sum
          fetched
        ≡ some body)
      × (decode body ≡ some content)
      × (json.unmarshal (
            json.marshal
              (record { version = state.last_version; timestamp = now; content = content }))
          ≡ some t)
      × (m.current ≡ record t { version = state.last_version; timestamp = now })
      × (state.digest ≡ some (digest_of json decode sum content))

  -- A poll changed nothing; or what it fetched decodes to a configuration whose snapshot, under a
  -- version of its own, is what the manager now holds, as the snapshot reads back from JSON.
  unfoldable pub IsTaken :
      ℕ
      → Option Fetched
      → DomainPollState
      → Manager Content
      → PollResult × DomainPollState × Manager Content
      → Type 0
  IsTaken now fetched state m (result, state', m') =
      ((result ≢ changed) × (state' ≡ state) × (m' ≡ m))
      ⊎ ((result ≡ changed)
          × (m.current_version < m'.current_version)
          × (state.last_version < m'.current_version)
          × (m'.current_version ≡ state'.last_version)
          × Holds now fetched m' state')

  next_version-lt : (now last : ℕ) → last < next_version json decode sum now last
  unfolding next_version
  next_version-lt now last = ground arith

  apply_domains-IsTaken :
      (now : ℕ) (written : Bool) (fetched : Option Fetched) (body : Bytes) (content : Content)
      (state : DomainPollState) (m : Manager Content)
      → m.current_version ≤ state.last_version
      → domains_body json decode sum fetched ≡ some body
      → decode body ≡ some content
      → IsTaken now fetched state m (apply_domains json decode sum now written content state m)
  unfolding IsTaken Holds apply_domains snapshot_message handle_message broadcast save_to_disk
      take_snapshot bytes_beq
  apply_domains-IsTaken now written fetched body content state m behind usable decoded =
      let version = next_version json decode sum now state.last_version in
      let newer = next_version-lt now state.last_version in
      let (snap, read) =
        readable (record { version = version; timestamp = now; content = content }) in
      let fresh : leb version m.current_version ≡ false = ground (arith, newer, behind) in
      elim (Bool-cases
        (is_known json decode sum state.digest (digest_of json decode sum content))) [
          | inl known ↦ rw (known, apply_domains) (inl (λ e. cc, refl, refl))
          | inr other ↦
              rw (other, fresh, read, apply_domains, handle_message)
                (inr (
                  refl,
                  omega (arith, newer, behind),
                  newer,
                  refl,
                  (body, content, snap, usable, decoded, read, refl, refl),
                ))
        ]

  -- A poll that says that it has applied a configuration has: what it fetched decodes to a content,
  -- the manager's snapshot is that content as it reads back from JSON, with the time of the poll and
  -- a version greater than all before, and the poller has kept that version and the digest of the
  -- content; any other poll leaves the manager and the poller as they were. The manager is not ahead of the poller, and what is written
  -- as JSON can be read.
  pub poll_domains-IsTaken :
      (now : ℕ) (written : Bool) (fetched : Option Fetched) (state : DomainPollState)
      (m : Manager Content)
      → m.current_version ≤ state.last_version
      → IsTaken now fetched state m (poll_domains json decode sum now written fetched state m)
  unfolding poll_domains IsTaken
  poll_domains-IsTaken now written fetched state m behind =
      elim (Option-cases (domains_body json decode sum fetched)) [
        | inl absent ↦ rw (absent, poll_domains) (inl (λ e. cc, refl, refl))
        | inr (body, usable) ↦ elim (Option-cases (decode body)) [
          | inl broken ↦ rw (usable, broken, poll_domains) (inl (λ e. cc, refl, refl))
          | inr (content, decoded) ↦
              rw (usable, decoded, poll_domains)
                (apply_domains-IsTaken now written fetched body content state m behind usable
                  decoded)
        ]
      ]

-- ===== src/Stream/Run.antt =====
-- What holds of the `Manager` of internal/streaming/manager.go whatever calls are made.
use netgoat.Prelude.{
  ℕ, zero, suc, ◌+◌, ◌≤◌, ◌<◌, ◌≡◌, refl, ap, ◌∙◌, Bool, true, false, Bool-cases, inl, inr, Option,
  some, Option-cases, List, [], ◌∷◌, ◌++◌, map, ◌==◌, ==_refl, ltb, leb, length, length-append, All,
  All-append, arith,
}
use netgoat.Std.Text.{Bytes, bytes_eq, codes}
use netgoat.Stream.Manager.{
  Snapshot, Json, Message, Channel, channel_size, Manager, load_from_disk, manager_of, new_manager,
  save_to_disk, offer, broadcast, take_snapshot, handle_message, subscribe, close,
  set_connection_status, read_one, read_at,
}

module _ {Content : Type 0} where
  -- Versions from `lo` to `hi`, each greater than the one before it.
  unfoldable pub IsRising : ℕ → ℕ → Channel Content → Type 0
  IsRising lo hi [] = Unit
  IsRising lo hi (s ∷ rest) = (lo ≤ s.version) × (s.version ≤ hi) × IsRising (s.version + 1) hi rest

  IsRising-later :
      (lo hi hi' : ℕ) (c : Channel Content) → hi ≤ hi' → IsRising lo hi c → IsRising lo hi' c
  unfolding IsRising
  IsRising-later lo hi hi' [] h v = tt
  IsRising-later lo hi hi' (s ∷ c) h (above, below, rest) =
      (above, omega (arith, below), IsRising-later (s.version + 1) hi hi' c h rest)

  IsRising-lower :
      (lo lo' hi : ℕ) (c : Channel Content) → lo' ≤ lo → IsRising lo hi c → IsRising lo' hi c
  unfolding IsRising
  IsRising-lower lo lo' hi [] h v = tt
  IsRising-lower lo lo' hi (s ∷ c) h (above, below, rest) = (omega (arith, above), below, rest)

  IsRising-append :
      (lo hi : ℕ) (c : Channel Content) (s : Snapshot Content)
      → lo ≤ s.version
      → hi < s.version
      → IsRising lo hi c
      → IsRising lo s.version (c ++ s ∷ [])
  unfolding IsRising
  IsRising-append lo hi [] s h k v = (h, omega arith, tt)
  IsRising-append lo hi (t ∷ c) s h k (above, below, rest) = (
    above,
    omega (arith, below),
    IsRising-append (t.version + 1) hi c s (omega (arith, below)) k rest,
  )

  -- A channel has its snapshots in the order of their versions, none newer than the current one, and
  -- no more than it can hold.
  unfoldable pub IsChannel : ℕ → Channel Content → Type 0
  IsChannel hi c = IsRising 0 hi c × (length c ≤ channel_size)

  offer-IsChannel :
      (hi : ℕ) (s : Snapshot Content) (c : Channel Content)
      → hi < s.version
      → IsChannel hi c
      → IsChannel s.version (offer s c)
  unfolding offer IsChannel
  offer-IsChannel hi s c newer (rising, short) = elim (Bool-cases (ltb (length c) channel_size)) [
    | inl room ↦
        let room_left : length c < channel_size = ground (arith, room) in
        rw (room, offer)
          (
            IsRising-append 0 hi c s (omega arith) newer rising,
            omega (arith, length-append c (s ∷ []), room_left),
          )
    | inr full ↦ rw (full, offer) (IsRising-later 0 hi s.version c (omega arith) rising, short)
  ]

  broadcast_lem :
      (hi : ℕ) (s : Snapshot Content) (cs : List (Channel Content))
      → hi < s.version
      → All (IsChannel hi) cs
      → All (IsChannel s.version) (map (offer s) cs)
  broadcast_lem hi s [] newer v = tt
  broadcast_lem hi s (c ∷ cs) newer (v, vs) =
      (offer-IsChannel hi s c newer v, broadcast_lem hi s cs newer vs)

  read_at_lem :
      (hi n : ℕ) (cs : List (Channel Content))
      → All (IsChannel hi) cs
      → All (IsChannel hi) (read_at n cs)
  unfolding read_at read_one IsChannel IsRising
  read_at_lem hi n [] v = tt
  read_at_lem hi zero ([] ∷ cs) v = v
  read_at_lem hi zero ((s ∷ c) ∷ cs) (((above, below, rising), short), vs) =
      ((IsRising-lower (s.version + 1) 0 hi c (omega arith) rising, omega (arith, short)), vs)
  read_at_lem hi (suc n) (c ∷ cs) (v, vs) = (v, read_at_lem hi n cs vs)

  -- The current snapshot has the current version, and each channel is in order.
  pub record IsConsistent (m : Manager Content) : Type 0 where
    pub stamped : m.current.version ≡ m.current_version
    pub channels : All (IsChannel m.current_version) m.listeners

-- The calls, and the reads of a listener.
pub data Call : Type 0 where
  message : Message → Bool → Call
  subscription : Call
  status : Bool → Option Bytes → Call
  reading : ℕ → Call
  closing : Call

module _ {Content : Type 0} (json : Json Content) where
  unfoldable pub call : Call → Manager Content → Manager Content
  call (message msg written) m = (handle_message json msg written m).1
  call subscription m = subscribe m
  call (status connected err) m = set_connection_status connected err m
  call (reading n) m = record m { listeners = read_at n m.listeners }
  call closing m = close m

  unfoldable pub run : List Call → Manager Content → Manager Content
  run [] m = m
  run (c ∷ calls) m = run calls (call c m)

  handle_message-IsConsistent :
      (msg : Message) (written : Bool) (m : Manager Content)
      → IsConsistent m
      → IsConsistent (handle_message json msg written m).1
        × (m.current_version ≤ (handle_message json msg written m).1.current_version)
  unfolding handle_message broadcast save_to_disk take_snapshot
  handle_message-IsConsistent msg written m v =
      elim (Bool-cases (leb msg.message_version m.current_version)) [
        | inl stale ↦ rw (stale, handle_message) (v, omega arith)
        | inr fresh ↦ elim (Bool-cases (msg.kind == codes "snapshot")) [
          | inr unknown ↦ rw (fresh, unknown, handle_message) (v, omega arith)
          | inl known ↦ elim (Option-cases (json.unmarshal msg.payload)) [
            | inl broken ↦ rw (fresh, known, broken, handle_message) (v, omega arith)
            | inr (snap, decoded) ↦
                let newer : m.current_version < msg.message_version = ground (arith, fresh) in
                let next : Snapshot Content = record snap {
                  version = msg.message_version;
                  timestamp = msg.message_time;
                } in
                rw (fresh, known, decoded, handle_message)
                  (
                    record {
                      stamped = refl;
                      channels = broadcast_lem m.current_version next m.listeners newer v.channels;
                    },
                    omega (arith, newer),
                  )
          ]
        ]
      ]

  call-IsConsistent :
      (c : Call) (m : Manager Content)
      → IsConsistent m
      → IsConsistent (call c m) × (m.current_version ≤ (call c m).current_version)
  unfolding call subscribe set_connection_status close IsChannel IsRising
  call-IsConsistent (message msg written) m v = handle_message-IsConsistent msg written m v
  call-IsConsistent subscription m v =
      let first : IsChannel m.current_version (m.current ∷ []) =
        ((omega arith, omega (arith, v.stamped), tt), omega arith) in
      (
        record {
          stamped = v.stamped;
          channels = All-append (IsChannel m.current_version) m.listeners _ v.channels (first, tt);
        },
        omega arith,
      )
  call-IsConsistent (status connected err) m v =
      (record { stamped = v.stamped; channels = v.channels }, omega arith)
  call-IsConsistent (reading n) m v = (
    record {
      stamped = v.stamped;
      channels = read_at_lem m.current_version n m.listeners v.channels;
    },
    omega arith,
  )
  call-IsConsistent closing m v = (record { stamped = v.stamped; channels = tt }, omega arith)

  new_manager-IsConsistent :
      (recovery_file : Bool) (disk : Option Bytes) (now : ℕ)
      → IsConsistent (new_manager json recovery_file disk now)
  unfolding new_manager manager_of
  new_manager-IsConsistent recovery_file disk now =
      elim (Option-cases (load_from_disk json recovery_file disk)) [
        | inl absent ↦ rw (absent, new_manager) (record { stamped = refl; channels = tt })
        | inr (snap, found) ↦ rw (found, new_manager) (record { stamped = refl; channels = tt })
      ]

  run_lem :
      (calls : List Call) (m : Manager Content)
      → IsConsistent m
      → IsConsistent (run calls m) × (m.current_version ≤ (run calls m).current_version)
  unfolding run
  run_lem [] m v = (v, omega arith)
  run_lem (c ∷ calls) m v =
      let (w, up) = call-IsConsistent c m v in
      let (x, up') = run_lem calls (call c m) w in (x, omega (arith, up, up'))

  -- After any calls and reads, from a manager that has started with or without a recovery file, the
  -- current snapshot has the current version, which has not fallen, and the snapshots that wait in
  -- the channel of a listener have rising versions, none above the current one, and are at most ten.
  pub run-IsConsistent :
      (recovery_file : Bool) (disk : Option Bytes) (now : ℕ) (calls : List Call)
      → let m = new_manager json recovery_file disk now in
        IsConsistent (run calls m) × (m.current_version ≤ (run calls m).current_version)
  run-IsConsistent recovery_file disk now calls =
      run_lem calls (new_manager json recovery_file disk now)
        (new_manager-IsConsistent recovery_file disk now)

  -- A snapshot that has been taken and written to the recovery file is what a manager that starts
  -- from that file has, so that older messages stay refused, as long as the JSON of that snapshot
  -- reads back as the snapshot.
  pub new_manager-handle_message :
      (msg : Message) (m : Manager Content) (snap : Snapshot Content) (now : ℕ)
      → m.recovery_file ≡ true
      → m.current_version < msg.message_version
      → msg.kind ≡ codes "snapshot"
      → json.unmarshal msg.payload ≡ some snap
      → json.unmarshal (
          json.marshal
            (record snap { version = msg.message_version; timestamp = msg.message_time }))
        ≡ some (record snap { version = msg.message_version; timestamp = msg.message_time })
      → let m' = (handle_message json msg true m).1 in
        let restarted = new_manager json true m'.disk now in
        (restarted.current ≡ m'.current) × (restarted.current_version ≡ msg.message_version)
  unfolding handle_message broadcast save_to_disk take_snapshot new_manager load_from_disk
      manager_of
  new_manager-handle_message msg m snap now file newer known decoded again =
      let fresh : leb msg.message_version m.current_version ≡ false = ground (arith, newer) in
      let kind_eq : (msg.kind == codes "snapshot") ≡ true =
        ap (λ k. k == codes "snapshot") known ∙ ==_refl (codes "snapshot") in
      rw (fresh, kind_eq, decoded, handle_message)
        (rw (file, again, new_manager, load_from_disk) (refl, refl))

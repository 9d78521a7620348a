-- ===== src/Stream/Manager.antt =====
-- `Manager` of internal/streaming/manager.go: the current snapshot, the listeners that wait for the
-- next one, and the recovery file. What a snapshot holds besides its version and its time, and its
-- JSON, are parameters; a missing map or list in it is the same as an empty one, which is what
-- `loadFromDisk` puts in its place. Versions are natural numbers.
use netgoat.Prelude.{
  ℕ, zero, suc, Bool, true, false, ◌&&◌, Option, none, some, List, [], ◌∷◌, ◌++◌, map,
  if◌then◌else◌, ◌==◌, ltb, leb, length,
}
use netgoat.Std.Text.{Bytes, bytes_eq, codes}

pub record Snapshot (Content : Type 0) : Type 0 where
  pub version : ℕ
  pub timestamp : ℕ
  pub content : Content

-- `json.Marshal` and `json.Unmarshal` on snapshots, and the snapshot without content.
pub record Json (Content : Type 0) : Type 0 where
  pub marshal : Snapshot Content → Bytes
  pub unmarshal : Bytes → Option (Snapshot Content)
  pub nothing : Content

pub record Message : Type 0 where
  pub kind : Bytes
  pub payload : Bytes
  pub message_version : ℕ
  pub message_time : ℕ

-- A listener is its channel, with the snapshots that it has not read, the oldest first.
abbrev pub Channel : Type 0 → Type 0
Channel Content = List (Snapshot Content)

abbrev pub channel_size : ℕ
channel_size = 10

pub record Manager (Content : Type 0) : Type 0 where
  pub current : Snapshot Content
  pub current_version : ℕ
  pub listeners : List (Channel Content)
  pub recovery_file : Bool
  pub disk : Option Bytes
  pub connected : Bool
  pub last_error : Option Bytes
  pub closed : Bool

module _ {Content : Type 0} where
  unfoldable pub manager_of : Bool → Option Bytes → Snapshot Content → Manager Content
  manager_of recovery_file disk snap = record {
    current = snap;
    current_version = snap.version;
    listeners = [];
    recovery_file = recovery_file;
    disk = disk;
    connected = false;
    last_error = none;
    closed = false;
  }

  -- A channel that is full does not take the snapshot.
  unfoldable pub offer : Snapshot Content → Channel Content → Channel Content
  offer snap channel = if ltb (length channel) channel_size then channel ++ snap ∷ [] else channel

  unfoldable pub broadcast : Manager Content → Manager Content
  broadcast m = record m { listeners = map (offer m.current) m.listeners }

  unfoldable pub take_snapshot : Message → Snapshot Content → Manager Content → Manager Content
  take_snapshot msg snap m = record m {
    current = record snap { version = msg.message_version; timestamp = msg.message_time };
    current_version = msg.message_version;
    connected = true;
    last_error = none;
  }

  unfoldable pub subscribe : Manager Content → Manager Content
  subscribe m = record m { listeners = m.listeners ++ (m.current ∷ []) ∷ [] }

  unfoldable pub get_snapshot : Manager Content → Snapshot Content
  get_snapshot m = m.current

  unfoldable pub close : Manager Content → Manager Content
  close m = record m { listeners = []; closed = true }

  unfoldable pub set_connection_status : Bool → Option Bytes → Manager Content → Manager Content
  set_connection_status connected err m = record m { connected = connected; last_error = err }

  unfoldable pub get_connection_status : Manager Content → Bool × Option Bytes
  get_connection_status m = (m.connected, m.last_error)

  -- A listener reads the oldest snapshot in its channel.
  unfoldable pub read_one : Channel Content → Channel Content
  read_one [] = []
  read_one (snap ∷ channel) = channel

  unfoldable pub read_at : ℕ → List (Channel Content) → List (Channel Content)
  read_at n [] = []
  read_at zero (c ∷ channels) = read_one c ∷ channels
  read_at (suc n) (c ∷ channels) = c ∷ read_at n channels

module _ {Content : Type 0} (json : Json Content) where
  -- The snapshot in the recovery file, if there is one that can be read.
  unfoldable pub load_from_disk : Bool → Option Bytes → Option (Snapshot Content)
  load_from_disk recovery_file none = none
  load_from_disk recovery_file (some bytes) = if recovery_file then json.unmarshal bytes else none

  unfoldable pub new_manager : Bool → Option Bytes → ℕ → Manager Content
  new_manager recovery_file disk now = elim (load_from_disk recovery_file disk) [
    | none ↦
        manager_of recovery_file disk
          (record { version = 0; timestamp = now; content = json.nothing })
    | some snap ↦ manager_of recovery_file disk snap
  ]

  -- The file is replaced as a whole, or stays as it is where writing or renaming fails.
  unfoldable pub save_to_disk : Bool → Manager Content → Manager Content
  save_to_disk written m = record m {
    disk = if m.recovery_file && written then some (json.marshal m.current) else m.disk;
  }

  -- `HandleMessage`, with whether it reports no error. `written` is whether the file can be written.
  unfoldable pub handle_message : Message → Bool → Manager Content → Bool × Manager Content
  handle_message msg written m =
      if leb msg.message_version m.current_version
      then (true, m)
      else if msg.kind == codes "snapshot"
      then elim (json.unmarshal msg.payload) [
        | none ↦ (false, m)
        | some snap ↦ (true, broadcast (save_to_disk written (take_snapshot msg snap m)))
      ]
      else (false, m)

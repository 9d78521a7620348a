-- ===== src/Cache/Lru.antt =====
-- The contract of the cache: a plain list of entries with distinct keys, most recently used first,
-- that never grows beyond a capacity. No handles, no map.
use netgoat.Prelude.{
  ℕ, Option, none, some, List, ◌∷◌, ltb, if◌then◌else◌, take, zero, suc, ◌<◌, ◌≡◌, arith, ==_refl,
}
use netgoat.Std.Text.{Bytes, bytes_eq}
use netgoat.Std.Index.View.{find, without}
use netgoat.Cache.Store.{Entry, Store}

abbrev pub key_of : Entry → Bytes
key_of ent = ent.key

-- A read drops an entry that has expired, and moves any other to the front.
unfoldable pub read : ℕ → Bytes → List Entry → List Entry × Option Entry
read now key es = elim (find key_of key es) [
  | none ↦ (es, none)
  | some ent ↦
      if ltb ent.expires now
      then (without key_of key es, none)
      else (ent ∷ without key_of key es, some ent)
]

-- A write puts the entry first and keeps the first `cap` entries.
unfoldable pub write : ℕ → Entry → List Entry → List Entry
write cap ent es = take cap (ent ∷ without key_of ent.key es)

-- What bounds a store: the longest lifetime, the number of entries and the size of a body.
pub record Limits : Type 0 where
  pub ttl : ℕ
  pub max_entries : ℕ
  pub max_body_bytes : ℕ

unfoldable pub limits_of : Store → Limits
limits_of s = record { ttl = s.ttl; max_entries = s.max_entries; max_body_bytes = s.max_body_bytes }

-- A read after a write, with room for an entry.
pub read-write :
    (later cap : ℕ) (ent : Entry) (es : List Entry)
    → 0 < cap
    → (read later ent.key (write cap ent es)).1 ≡ (if ltb ent.expires later then none else some ent)
unfolding read write find
read-write later zero ent es h = absurd (omega arith)
read-write later (suc n) ent es h = ground (arith, ==_refl ent.key)

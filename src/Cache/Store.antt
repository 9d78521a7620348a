-- ===== src/Cache/Store.antt =====
-- `Store` of internal/cache/cache.go: the map `items` from keys to the elements of the list `ll`,
-- most recently used first. Times and durations are nanoseconds; `now` is what `time.Now()` returns
-- during the call.
use netgoat.Prelude.{
  ℕ, zero, suc, ◌+◌, ◌^◌, ◌*◌, Bool, ◌||◌, Option, none, some, List, [], ◌∷◌, length, ◌==◌,
  if◌then◌else◌, ltb, ℤ, pos, negsuc, or_default,
}
use netgoat.Std.Dict.{Dict, lookup, insert, delete}
use netgoat.Std.Linked
use netgoat.Std.Linked.{Linked, value, back}
use netgoat.Std.Text.{Bytes, bytes_eq, codes, to_lower}

-- `http.Header`
abbrev pub Header : Type 0
Header = Dict Bytes (List Bytes)

pub record Entry : Type 0 where
  pub key : Bytes
  pub status : ℕ
  pub header : Header
  pub body : Bytes
  pub expires : ℕ

pub record Store : Type 0 where
  pub ttl : ℕ
  pub max_entries : ℕ
  pub max_body_bytes : ℕ
  pub ll : Linked Entry
  pub items : Dict Bytes ℕ

abbrev pub second : ℕ
second = 10 ^ 9

unfoldable pub new_store : ℤ → ℤ → ℤ → Store
new_store ttl max_entries max_body_bytes = record {
  ttl = or_default ttl (60 * second);
  max_entries = or_default max_entries 1024;
  max_body_bytes = or_default max_body_bytes (2 ^ 20);
  ll = Linked.empty;
  items = [];
}

unfoldable pub is_hop_by_hop : Bytes → Bool
unfolding to_lower
is_hop_by_hop k =
    let l = to_lower k in
    l == codes "connection"
    || l == codes "keep-alive"
    || l == codes "proxy-authenticate"
    || l == codes "proxy-authorization"
    || l == codes "te"
    || l == codes "trailers"
    || l == codes "transfer-encoding"
    || l == codes "upgrade"

unfoldable pub clone_header : Header → Header
clone_header [] = []
clone_header ((k, vals) ∷ h) =
    if is_hop_by_hop k then clone_header h else (k, vals) ∷ clone_header h

-- An element that is no longer in the list cannot be reached from the map (`IsValid` below).
unfoldable pub remove_element : ℕ → Store → Store
remove_element ele s = elim (value ele s.ll) [
  | none ↦ s
  | some ent ↦ record s { ll = Linked.remove ele s.ll; items = delete ent.key s.items }
]

unfoldable pub remove_oldest : Store → Store
remove_oldest s = elim (back s.ll) [ none ↦ s | some (ele, _) ↦ remove_element ele s ]

unfoldable pub get : ℕ → Bytes → Store → Store × Option Entry
get now key s = elim (lookup key s.items) [
  | none ↦ (s, none)
  | some ele ↦ elim (value ele s.ll) [
    | none ↦ (s, none)
    | some ent ↦
        if ltb ent.expires now
        then (remove_element ele s, none)
        else (record s { ll = Linked.move_to_front ele s.ll }, some ent)
  ]
]

-- The end of `SetWithTTL` for a key that is new, before the eviction.
unfoldable pub push_entry : Entry → Store → Store
push_entry ent s = record s {
  ll = Linked.push_front ent s.ll;
  items = insert ent.key s.ll.next s.items;
}

unfoldable pub add_entry : Entry → Store → Store
add_entry ent s =
    let s' = push_entry ent s in
    if ltb s.max_entries (length s'.ll.elems) then remove_oldest s' else s'

-- The end of `SetWithTTL` for a key that is present: its element gets a new value.
unfoldable pub replace_entry : ℕ → Entry → Store → Store
replace_entry ele ent s = record s { ll = Linked.set_value ele ent (Linked.move_to_front ele s.ll) }

unfoldable pub store_entry : Entry → Store → Store
store_entry ent s = elim (lookup ent.key s.items) [
  | none ↦ add_entry ent s
  | some ele ↦ replace_entry ele ent s
]

-- What `SetWithTTL` stores, if anything: a body that is too large and a lifetime that is not
-- positive are refused, and no lifetime exceeds the store's.
unfoldable pub admit : ℕ → ℕ → ℕ → Bytes → ℕ → Header → Bytes → ℤ → Option Entry
admit max_body_bytes max_ttl now key status header body (negsuc _) = none
admit max_body_bytes max_ttl now key status header body (pos zero) = none
admit max_body_bytes max_ttl now key status header body (pos (suc n)) =
    if ltb max_body_bytes (length body)
    then none
    else some (record {
      key = key;
      status = status;
      header = clone_header header;
      body = body;
      expires = now + (if ltb max_ttl (suc n) then max_ttl else suc n);
    })

unfoldable pub set_with_ttl : ℕ → Bytes → ℕ → Header → Bytes → ℤ → Store → Store
set_with_ttl now key status header body ttl s =
    elim (admit s.max_body_bytes s.ttl now key status header body ttl) [
      | none ↦ s
      | some ent ↦ store_entry ent s
    ]

unfoldable pub set : ℕ → Bytes → ℕ → Header → Bytes → Store → Store
set now key status header body s = set_with_ttl now key status header body (pos s.ttl) s

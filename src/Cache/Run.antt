-- ===== src/Cache/Run.antt =====
-- Sequences of calls on the store of internal/cache/cache.go, beside the same calls on the plain
-- list of Cache/Lru. The store's mutex makes every use of it such a sequence.
use netgoat.Prelude.{
  ℕ, ◌≡◌, refl, ◌∙◌, Option, none, some, List, [], ◌∷◌, arith, ℤ, pos, negsuc, if◌then◌else◌, ltb,
  Option-cases, inl, inr, suc, zero,
}
use netgoat.Std.Text.{Bytes, bytes_eq}
use netgoat.Cache.Store
use netgoat.Cache.Store.{Header, Entry, Store, new_store, admit, store_entry}
use netgoat.Cache.Lru.{read, write, read-write, Limits, limits_of}
use netgoat.Cache.Refines.{
  IsValid, contents, contents-new_store, new_store-IsValid, get-read, store_entry_lem, get-limits,
  store_entry-limits,
}

pub data Call : Type 0 where
  get : ℕ → Bytes → Call
  set_with_ttl : ℕ → Bytes → ℕ → Header → Bytes → ℤ → Call

-- One call on the store: the new store and what the call returns.
unfoldable pub call : Call → Store → Store × Option Entry
call (get now key) s = Store.get now key s
call (set_with_ttl now key status header body ttl) s =
    (Store.set_with_ttl now key status header body ttl s, none)

unfoldable pub run : List Call → Store → Store × List (Option Entry)
run [] s = (s, [])
run (c ∷ cs) s = let (s', r) = call c s in let (t, rs) = run cs s' in (t, r ∷ rs)

-- The same call on the plain list, within the same limits.
unfoldable pub ideal_call : Limits → Call → List Entry → List Entry × Option Entry
ideal_call limits (get now key) es = read now key es
ideal_call limits (set_with_ttl now key status header body ttl) es =
    elim (admit limits.max_body_bytes limits.ttl now key status header body ttl) [
      | none ↦ (es, none)
      | some ent ↦ (write limits.max_entries ent es, none)
    ]

unfoldable pub ideal_run : Limits → List Call → List Entry → List Entry × List (Option Entry)
ideal_run limits [] es = (es, [])
ideal_run limits (c ∷ cs) es =
    let (es', r) = ideal_call limits c es in let (fs, rs) = ideal_run limits cs es' in (fs, r ∷ rs)

-- What one call keeps, and how it answers.
record Agrees (s t : Store) (r : Option Entry) (ideal : List Entry × Option Entry) : Type 0 where
  valid : IsValid t
  same : limits_of t ≡ limits_of s
  shown : contents t ≡ ideal.0
  answer : r ≡ ideal.1

call_lem :
    (c : Call) {s : Store}
    → IsValid s
    → Agrees s (call c s).0 (call c s).1 (ideal_call (limits_of s) c (contents s))
unfolding call ideal_call Store.set_with_ttl limits_of
call_lem (get now key) {s} v =
    let (valid, shown, answer) = get-read now key v in
    record { valid = valid; same = get-limits now key s; shown = shown; answer = answer }
call_lem (set_with_ttl now key status header body ttl) {s} v =
    elim (Option-cases (admit s.max_body_bytes s.ttl now key status header body ttl)) [
      | inl refused ↦
          rw (refused, Store.set_with_ttl, ideal_call)
            (record { valid = v; same = refl; shown = refl; answer = refl })
      | inr (ent, kept) ↦
          let (valid, shown) = store_entry_lem ent s v in
          rw (kept, Store.set_with_ttl, ideal_call)
            (record {
              valid = valid;
              same = store_entry-limits ent s;
              shown = shown;
              answer = refl;
            })
    ]

run_lem :
    (cs : List Call) (l : Limits) (es : List Entry) {s : Store}
    → IsValid s
    → limits_of s ≡ l
    → contents s ≡ es
    → IsValid (run cs s).0
      × (contents (run cs s).0 ≡ (ideal_run l cs es).0)
      × ((run cs s).1 ≡ (ideal_run l cs es).1)
unfolding run ideal_run
run_lem [] l es v p q = (v, q, refl)
run_lem (c ∷ cs) l es {s} v p q =
    let a = call_lem c v in
    let ideal : ideal_call (limits_of s) c (contents s) ≡ ideal_call l c es =
      λ i. ideal_call (p i) c (q i) in
    let (valid, shown, answers) =
      run_lem cs l (ideal_call l c es).0 a.valid (a.same ∙ p) (a.shown ∙ λ i. (ideal i).0) in
    (valid, shown, λ i. (a.answer ∙ λ j. (ideal j).1) i ∷ answers i)

-- From a new cache, whatever the calls: the cache stays valid (its map and its list agree, no key
-- stands twice, and it holds at most `max_entries` entries), its entries are those of the plain
-- least-recently-used list, in the same order, and every read returns what that list returns.
pub run-ideal_run :
    (ttl max_entries max_body : ℤ) (cs : List Call)
    → IsValid (run cs (new_store ttl max_entries max_body)).0
      × (contents (run cs (new_store ttl max_entries max_body)).0
          ≡ (ideal_run (limits_of (new_store ttl max_entries max_body)) cs []).0)
      × ((run cs (new_store ttl max_entries max_body)).1
          ≡ (ideal_run (limits_of (new_store ttl max_entries max_body)) cs []).1)
run-ideal_run ttl max_entries max_body cs =
    run_lem cs _ [] (new_store-IsValid ttl max_entries max_body) refl
      (contents-new_store ttl max_entries max_body)

admit-key :
    (max_body max_ttl now : ℕ) (key : Bytes) (status : ℕ) (header : Header) (body : Bytes) (ttl : ℤ)
    (ent : Entry)
    → admit max_body max_ttl now key status header body ttl ≡ some ent
    → ent.key ≡ key
unfolding admit
admit-key max_body max_ttl now key status header body (negsuc _) ent h = cc
admit-key max_body max_ttl now key status header body (pos zero) ent h = cc
admit-key max_body max_ttl now key status header body (pos (suc n)) ent h = ground arith

-- On a valid cache, an entry that a write admits is what the next read of its key returns, until it
-- expires; from then on that read returns nothing.
pub get-set_with_ttl :
    (now later : ℕ) (key : Bytes) (status : ℕ) (header : Header) (body : Bytes) (ttl : ℤ)
    (ent : Entry) (s : Store)
    → IsValid s
    → admit s.max_body_bytes s.ttl now key status header body ttl ≡ some ent
    → (Store.get later key (Store.set_with_ttl now key status header body ttl s)).1
      ≡ (if ltb ent.expires later then none else some ent)
unfolding Store.set_with_ttl
get-set_with_ttl now later key status header body ttl ent s v kept =
    let (valid, shown) = store_entry_lem ent s v in
    let (_, _, answer) = get-read later key valid in
    let named = admit-key s.max_body_bytes s.ttl now key status header body ttl ent kept in
    rw (kept, Store.set_with_ttl)
      (answer ∙ rw (shown, ← named) (read-write later s.max_entries ent (contents s) v.room))

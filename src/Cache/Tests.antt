-- ===== src/Cache/Tests.antt =====
-- Runs of the cache on small inputs, and the theorems at such inputs.
use netgoat.Prelude.{
  ◌≡◌, refl, true, false, none, some, List, [], ◌∷◌, ◌++◌, map, length, leb, if◌then◌else◌, pos,
  pos_part, nat_eq,
}
use netgoat.Std.Dict.{lookup, insert, delete}
use netgoat.Std.Linked
use netgoat.Std.Text.{bytes_eq, codes, bytes_beq, to_lower}
use netgoat.Cache.Store
use netgoat.Cache.Store.{
  Header, Entry, Store, new_store, is_hop_by_hop, clone_header, remove_element, remove_oldest,
  push_entry, add_entry, replace_entry, store_entry, admit,
}
use netgoat.Cache.Lru.{limits_of}
use netgoat.Cache.Refines.{IsValid, contents, new_store-IsValid}
use netgoat.Cache.Run.{
  Call, get, set_with_ttl, call, run, ideal_run, run-ideal_run, get-set_with_ttl,
}
use netgoat.Cache.Capture.{
  Capture, capture_on_eof, record_chunk, complete, reads, joined, more, reads-delivered,
}
use netgoat.Cache.Capture

program : Unit {0}
unfolding lookup insert delete bytes_beq to_lower Linked.push_front Linked.remove
    Linked.move_to_front Linked.set_value new_store is_hop_by_hop clone_header remove_element
    remove_oldest push_entry add_entry replace_entry store_entry admit Store.get Store.set_with_ttl
    call run
program = tt

abbrev html : Header
html =
    (codes "Content-Type", codes "text/html" ∷ []) ∷ (codes "Connection", codes "close" ∷ []) ∷ []

-- Three writes to a cache of two entries, whose first key is read in between.
abbrev calls : List Call
calls =
    set_with_ttl 10 (codes "a") 200 html (codes "A") (pos 50)
    ∷ set_with_ttl 11 (codes "b") 200 [] (codes "B") (pos 5)
    ∷ get 12 (codes "a")
    ∷ set_with_ttl 13 (codes "c") 200 [] (codes "C") (pos 500)
    ∷ get 14 (codes "b")
    ∷ get 60 (codes "a")
    ∷ get 61 (codes "a")
    ∷ []

abbrev entry_a : Entry
entry_a = record {
  key = codes "a";
  status = 200;
  header = (codes "Content-Type", codes "text/html" ∷ []) ∷ [];
  body = codes "A";
  expires = 60;
}

run-calls :
    (run calls (new_store (pos 100) (pos 2) (pos 10))).1
    ≡ none ∷ none ∷ some entry_a ∷ none ∷ none ∷ some entry_a ∷ none ∷ []
unfolding program
run-calls = refl

run-ideal_run_example :
    IsValid (run calls (new_store (pos 100) (pos 2) (pos 10))).0
    × (contents (run calls (new_store (pos 100) (pos 2) (pos 10))).0
        ≡ (ideal_run (limits_of (new_store (pos 100) (pos 2) (pos 10))) calls []).0)
    × ((run calls (new_store (pos 100) (pos 2) (pos 10))).1
        ≡ (ideal_run (limits_of (new_store (pos 100) (pos 2) (pos 10))) calls []).1)
run-ideal_run_example = run-ideal_run (pos 100) (pos 2) (pos 10) calls

abbrev small : Store
small = record { ttl = 100; max_entries = 2; max_body_bytes = 10; ll = Linked.empty; items = [] }

small-IsValid : IsValid small
unfolding new_store
small-IsValid = new_store-IsValid (pos 100) (pos 2) (pos 10)

get-set_with_ttl_example :
    (Store.get 30
      (codes "a")
      (Store.set_with_ttl 10 (codes "a") 200 html (codes "A") (pos 50) small)).1
    ≡ some entry_a
unfolding program
get-set_with_ttl_example =
    get-set_with_ttl 10 30 (codes "a") 200 html (codes "A") (pos 50) entry_a small small-IsValid
      refl

abbrev capture : Capture
capture = record { buf = []; max_bytes = 4; overflow = false; completed = false; delivered = [] }

reads-delivered_example :
    (reads (map more (codes "ab" ∷ codes "c" ∷ []) ++ (codes "d", true) ∷ []) capture).delivered ≡ (
      if leb (length (joined ((codes "ab" ∷ codes "c" ∷ []) ++ codes "d" ∷ []))) (pos_part (pos 4))
      then joined ((codes "ab" ∷ codes "c" ∷ []) ++ codes "d" ∷ []) ∷ []
      else [])
unfolding capture_on_eof
reads-delivered_example =
    reads-delivered (pos 4) capture (codes "ab" ∷ codes "c" ∷ []) (codes "d") [] refl

too_long :
    (reads ((codes "abc", false) ∷ (codes "de", false) ∷ ([], true) ∷ []) capture).delivered ≡ []
unfolding reads Capture.read record_chunk complete
too_long = refl

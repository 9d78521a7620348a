-- ===== src/Cache/Headers.antt =====
-- `cloneHeader` of internal/cache/cache.go: which headers of a response are kept with it.
use netgoat.Prelude.{◌≡◌, none, [], ◌∷◌, arith, if◌then◌else◌}
use netgoat.Std.Dict.{lookup}
use netgoat.Std.Text.{Bytes, bytes_eq, bytes_beq_iff}
use netgoat.Cache.Store.{Header, is_hop_by_hop, clone_header}

-- A kept response has no hop-by-hop header, whatever the case of its name, and every other header
-- with all its values.
lookup-clone_header :
    (k : Bytes) (h : Header)
    → lookup k (clone_header h) ≡ (if is_hop_by_hop k then none else lookup k h)
unfolding lookup clone_header
lookup-clone_header k [] = ground arith
lookup-clone_header k ((j, vals) ∷ h) = ground (arith, lookup-clone_header k h, bytes_beq_iff j k)

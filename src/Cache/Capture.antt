-- ===== src/Cache/Capture.antt =====
-- `CaptureOnEOF` and `captureReadCloser` of internal/cache/cache.go: a response body is recorded
-- while it streams to the client. A read of the wrapped body brings some bytes and says whether it
-- ended with `io.EOF`; `delivered` lists what `onComplete` has been called with.
use netgoat.Prelude.{
  ℕ, zero, suc, ◌+◌, ◌≡◌, refl, Bool, true, false, not, ◌&&◌, Option, none, some, List, [], ◌∷◌,
  ◌++◌, length, length-append, arith, ltb, leb, if◌then◌else◌, ℤ, pos, negsuc, pos_part, ◌∙◌,
}
use mathlib.Core.List.{append-nil, append_assoc, map}
use netgoat.Std.Text.{Bytes}

pub record Capture : Type 0 where
  pub buf : Bytes
  pub max_bytes : ℕ
  pub overflow : Bool
  pub completed : Bool
  pub delivered : List Bytes

-- `none`: the body is returned as it is.
unfoldable pub capture_on_eof : Bool → ℤ → Bool → Option Capture
capture_on_eof true (pos (suc n)) true =
    some
      (record { buf = []; max_bytes = suc n; overflow = false; completed = false; delivered = [] })
capture_on_eof _ _ _ = none

unfoldable pub record_chunk : Bytes → Capture → Capture
record_chunk chunk r =
    if ltb 0 (length chunk) && not r.overflow
    then (if leb (length r.buf + length chunk) r.max_bytes
        then record r { buf = r.buf ++ chunk }
        else record r { overflow = true; buf = [] })
    else r

unfoldable pub complete : Bool → Capture → Capture
complete eof r =
    if eof && not r.completed
    then record r {
      completed = true;
      delivered = if r.overflow then r.delivered else r.delivered ++ r.buf ∷ [];
    }
    else r

-- `Read`
unfoldable pub read : Bytes → Bool → Capture → Capture
read chunk eof r = complete eof (record_chunk chunk r)

unfoldable pub reads : List (Bytes × Bool) → Capture → Capture
reads [] r = r
reads ((chunk, eof) ∷ rest) r = reads rest (read chunk eof r)

-- The whole of a body that comes in several reads.
unfoldable pub joined : List Bytes → Bytes
joined [] = []
joined (c ∷ cs) = c ++ joined cs

-- What the reads so far leave: the bytes, as long as they fit.
abbrev pub Holds : Bytes → Capture → Type 0
Holds seen r =
    (r.overflow ≡ ltb r.max_bytes (length seen))
    × (r.buf ≡ (if r.overflow then [] else seen))
    × (r.completed ≡ false)
    × (r.delivered ≡ [])

record_chunk-max_bytes :
    (chunk : Bytes) (r : Capture) → (record_chunk chunk r).max_bytes ≡ r.max_bytes
unfolding record_chunk
record_chunk-max_bytes chunk r = ground arith

append_of_length-zero : (xs ys : Bytes) → length ys ≡ 0 → xs ++ ys ≡ xs
append_of_length-zero xs [] h = append-nil xs
append_of_length-zero xs (y ∷ ys) h = absurd (omega arith)

record_chunk-Holds :
    (seen chunk : Bytes) (r : Capture) → Holds seen r → Holds (seen ++ chunk) (record_chunk chunk r)
unfolding record_chunk
record_chunk-Holds seen chunk r h =
    ground (arith, length-append seen chunk, append_of_length-zero seen chunk)

read_completed :
    (chunk : Bytes) (eof : Bool) (r : Capture)
    → r.completed ≡ true
    → ((read chunk eof r).completed ≡ true) × ((read chunk eof r).delivered ≡ r.delivered)
unfolding read record_chunk complete
read_completed chunk eof r h = ground arith

-- After the end nothing more is delivered.
reads_completed :
    (rest : List (Bytes × Bool)) (r : Capture)
    → r.completed ≡ true
    → (reads rest r).delivered ≡ r.delivered
unfolding reads
reads_completed [] r h = refl
reads_completed ((chunk, eof) ∷ rest) r h =
    let (still, same) = read_completed chunk eof r h in
    reads_completed rest (read chunk eof r) still ∙ same

read_end :
    (seen chunk : Bytes) (limit : ℕ) (r : Capture)
    → Holds seen r
    → r.max_bytes ≡ limit
    → ((read chunk true r).completed ≡ true)
      × ((read chunk true r).delivered
          ≡ (if leb (length (seen ++ chunk)) limit then (seen ++ chunk) ∷ [] else []))
unfolding read complete
read_end seen chunk limit r h e =
    let (over, kept, open', none') = record_chunk-Holds seen chunk r h in
    let same = record_chunk-max_bytes chunk r in (ground arith, ground arith)

read_more :
    (seen chunk : Bytes) (r : Capture) → Holds seen r → Holds (seen ++ chunk) (read chunk false r)
unfolding read complete
read_more seen chunk r h = record_chunk-Holds seen chunk r h

read-max_bytes : (chunk : Bytes) (r : Capture) → (read chunk false r).max_bytes ≡ r.max_bytes
unfolding read complete
read-max_bytes chunk r = record_chunk-max_bytes chunk r

abbrev pub more : Bytes → Bytes × Bool
more chunk = (chunk, false)

reads_lem :
    (before : List Bytes) (last : Bytes) (after : List (Bytes × Bool)) (seen : Bytes) (limit : ℕ)
    (r : Capture)
    → Holds seen r
    → r.max_bytes ≡ limit
    → (reads (map more before ++ (last, true) ∷ after) r).delivered ≡ (
        if leb (length (seen ++ joined (before ++ last ∷ []))) limit
        then (seen ++ joined (before ++ last ∷ [])) ∷ []
        else [])
unfolding reads joined
reads_lem [] last after seen limit r h e =
    let (ended, delivered) = read_end seen last limit r h e in
    rw append-nil (reads_completed after (read last true r) ended ∙ delivered)
reads_lem (c ∷ before) last after seen limit r h e = rw (← append_assoc) (
    reads_lem before last after (seen ++ c) limit (read c false r) (read_more seen c r h)
      (read-max_bytes c r ∙ e))

-- A body that is captured with a limit, and read to its end and further: what is delivered is the
-- whole body, once, if it is no longer than the limit, and nothing otherwise.
pub reads-delivered :
    (limit : ℤ) (r : Capture) (before : List Bytes) (last : Bytes) (after : List (Bytes × Bool))
    → capture_on_eof true limit true ≡ some r
    → (reads (map more before ++ (last, true) ∷ after) r).delivered ≡ (
        if leb (length (joined (before ++ last ∷ []))) (pos_part limit)
        then joined (before ++ last ∷ []) ∷ []
        else [])
unfolding capture_on_eof
reads-delivered (pos (suc n)) r before last after h =
    let start : Holds [] r = ground arith in
    reads_lem before last after [] (suc n) r start (ground arith)
reads-delivered (pos zero) r before last after h = cc
reads-delivered (negsuc _) r before last after h = cc

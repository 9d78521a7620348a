-- ===== src/Balancer/Lines.antt =====
-- The header lines that reach the client through the `streamWriter` of internal/balancer/balancer.go.
use netgoat.Prelude.{
  ℕ, ◌+◌, ◌<◌, ◌≡◌, refl, sym, ap, ◌∙◌, true, false, Bool-cases, inl, inr, Option, none, some, List,
  [], ◌∷◌, ◌++◌, map, if◌then◌else◌, ltb, leb, length, length-append, arith,
}
use mathlib.Core.List.{append-nil}
use netgoat.Std.Dict.{Dict, insert}
use netgoat.Std.Text.{Bytes, bytes_eq}
use netgoat.Balancer.Stream.{
  Call, set_header, write_header, write, flush, Sent, added, status_sent, body_sent, flushed,
  StreamWriter, add_values, add_header, on_write_header, flush_retry_to, send_body, write_started,
  on_write, on_flush, on_call, on_calls,
}
use netgoat.Balancer.Phase.{}

-- The header lines that the client's writer was given.
unfoldable pub lines : List Sent → List (Bytes × Bytes)
lines [] = []
lines (added k v ∷ l) = (k, v) ∷ lines l
lines (status_sent n ∷ l) = lines l
lines (body_sent p ∷ l) = lines l
lines (flushed ∷ l) = lines l

unfoldable pub header_lines : Dict Bytes (List Bytes) → List (Bytes × Bytes)
header_lines [] = []
header_lines ((k, vals) ∷ h) = map (λ v. (k, v)) vals ++ header_lines h

-- The header at the end of the calls.
unfoldable pub header_of : Dict Bytes (List Bytes) → List Call → Dict Bytes (List Bytes)
header_of h [] = h
header_of h (set_header k vals ∷ cs) = header_of (insert k vals h) cs
header_of h (write_header n ∷ cs) = header_of h cs
header_of h (write p ∷ cs) = header_of h cs
header_of h (flush ∷ cs) = header_of h cs

-- The header when the body of a server error, of which `n` bytes are held, outgrows the limit.
unfoldable pub held_header :
    ℕ → ℕ → Dict Bytes (List Bytes) → List Call → Option (Dict Bytes (List Bytes))
held_header limit n h [] = none
held_header limit n h (set_header k vals ∷ cs) = held_header limit n (insert k vals h) cs
held_header limit n h (write_header m ∷ cs) = held_header limit n h cs
held_header limit n h (write p ∷ cs) =
    let rest = held_header limit (n + length p) h cs in
    if ltb limit (n + length p) then some h else rest
held_header limit n h (flush ∷ cs) = held_header limit n h cs

-- The header when the response goes out, if it does.
unfoldable pub sent_header :
    ℕ → Dict Bytes (List Bytes) → List Call → Option (Dict Bytes (List Bytes))
sent_header limit h [] = none
sent_header limit h (set_header k vals ∷ cs) = sent_header limit (insert k vals h) cs
sent_header limit h (write_header n ∷ cs) = if leb 500 n then held_header limit 0 h cs else some h
sent_header limit h (write p ∷ cs) = some h
sent_header limit h (flush ∷ cs) = sent_header limit h cs

unfoldable pub sent_lines : Option (Dict Bytes (List Bytes)) → List (Bytes × Bytes)
sent_lines none = []
sent_lines (some h) = header_lines h

pub lines-append : (k l : List Sent) → lines (k ++ l) ≡ lines k ++ lines l
unfolding lines
lines-append [] l = refl
lines-append (added k v ∷ s) l = ap (◌∷◌ (k, v)) (lines-append s l)
lines-append (status_sent n ∷ s) l = lines-append s l
lines-append (body_sent p ∷ s) l = lines-append s l
lines-append (flushed ∷ s) l = lines-append s l

lines-add_values :
    (k : Bytes) (vals : List Bytes) → lines (add_values k vals) ≡ map (λ v. (k, v)) vals
unfolding lines add_values
lines-add_values k [] = refl
lines-add_values k (v ∷ vals) = ap (◌∷◌ (k, v)) (lines-add_values k vals)

lines-add_header : (h : Dict Bytes (List Bytes)) → lines (add_header h) ≡ header_lines h
unfolding add_header header_lines lines
lines-add_header [] = refl
lines-add_header ((k, vals) ∷ h) =
    lines-append (add_values k vals) (add_header h)
    ∙ simp (lines-add_values k vals, lines-add_header h)

-- Behind what was sent, a header and calls without lines.
pub lines_after :
    (base l : List Sent) (h : Dict Bytes (List Bytes))
    → lines l ≡ []
    → lines (base ++ (add_header h ++ l)) ≡ lines base ++ header_lines h
lines_after base l h none_of =
    lines-append base (add_header h ++ l)
    ∙ ap (◌++◌ (lines base))
        (lines-append (add_header h) l ∙ simp (lines-add_header h, none_of, append-nil))

-- The calls of the writer, by its state.
write_header_begun : (s : StreamWriter) (n : ℕ) → s.wrote_hdr ≡ true → on_write_header n s ≡ s
unfolding on_write_header
write_header_begun s n opened = ground (arith, opened)

write_header_bad :
    (s : StreamWriter) (n : ℕ)
    → s.wrote_hdr ≡ false
    → leb 500 n ≡ true
    → on_write_header n s ≡ record s { wrote_hdr = true; status = n; retry = true }
unfolding on_write_header
write_header_bad s n fresh bad = ground (arith, fresh, bad)

write_header_good :
    (s : StreamWriter) (n : ℕ)
    → s.wrote_hdr ≡ false
    → leb 500 n ≡ false
    → on_write_header n s ≡ record s {
      wrote_hdr = true;
      status = n;
      sent = s.sent ++ (add_header s.header ++ (status_sent n ∷ []));
    }
unfolding on_write_header
write_header_good s n fresh good = ground (arith, fresh, good)

write_begun : (s : StreamWriter) (p : Bytes) → s.wrote_hdr ≡ true → on_write p s ≡ write_started p s
unfolding on_write
write_begun s p opened = ap (λ b. write_started p (if b then s else on_write_header 200 s)) opened

write_fresh :
    (s : StreamWriter) (p : Bytes)
    → s.wrote_hdr ≡ false
    → on_write p s ≡ write_started p (on_write_header 200 s)
unfolding on_write
write_fresh s p fresh = ap (λ b. write_started p (if b then s else on_write_header 200 s)) fresh

write_calm : (s : StreamWriter) (p : Bytes) → s.retry ≡ false → write_started p s ≡ send_body p s
unfolding write_started
write_calm s p calm = ground (arith, calm)

write_over :
    (s : StreamWriter) (p : Bytes)
    → s.retry ≡ true
    → 0 < s.buffer_limit
    → ltb s.buffer_limit (length s.buf + length p) ≡ true
    → write_started p s ≡ send_body p (record (flush_retry_to s) { retry = false })
unfolding write_started
write_over s p held big over = ground (arith, held, big, over)

write_fits :
    (s : StreamWriter) (p : Bytes)
    → s.retry ≡ true
    → ltb s.buffer_limit (length s.buf + length p) ≡ false
    → write_started p s ≡ record s { buf = s.buf ++ p }
unfolding write_started
write_fits s p held fits = ground (arith, held, fits)

flush_calm :
    (s : StreamWriter) → s.retry ≡ false → on_flush s ≡ record s { sent = s.sent ++ (flushed ∷ []) }
unfolding on_flush
flush_calm s calm = ground (arith, calm)

flush_held : (s : StreamWriter) → s.retry ≡ true → on_flush s ≡ s
unfolding on_flush
flush_held s held = ground (arith, held)

abbrev lines_of : List Call → StreamWriter → List (Bytes × Bytes)
lines_of cs s = lines (on_calls cs s).sent

-- A response on its way adds no line.
streaming_lines :
    (cs : List Call) (s : StreamWriter)
    → s.wrote_hdr ≡ true
    → s.retry ≡ false
    → lines (on_calls cs s).sent ≡ lines s.sent
unfolding on_calls on_call send_body lines
streaming_lines [] s opened calm = refl
streaming_lines (set_header k vals ∷ cs) s opened calm =
    streaming_lines cs (record s { header = insert k vals s.header }) opened calm
streaming_lines (write_header n ∷ cs) s opened calm =
    ap (lines_of cs) (write_header_begun s n opened) ∙ streaming_lines cs s opened calm
streaming_lines (write p ∷ cs) s opened calm =
    let s' = record s { sent = s.sent ++ (body_sent p ∷ []) } in
    ap (lines_of cs) (write_begun s p opened ∙ write_calm s p calm)
    ∙ (streaming_lines cs s' opened calm
        ∙ (lines-append s.sent (body_sent p ∷ []) ∙ append-nil (lines s.sent)))
streaming_lines (flush ∷ cs) s opened calm =
    let s' = record s { sent = s.sent ++ (flushed ∷ []) } in
    ap (lines_of cs) (flush_calm s calm)
    ∙ (streaming_lines cs s' opened calm
        ∙ (lines-append s.sent (flushed ∷ []) ∙ append-nil (lines s.sent)))

module _ (limit : ℕ) (big : 0 < limit) where
  -- A server error that is held back adds its header when it outgrows the limit.
  held_lines :
      (cs : List Call) (s : StreamWriter)
      → s.wrote_hdr ≡ true
      → s.retry ≡ true
      → s.buffer_limit ≡ limit
      → lines (on_calls cs s).sent
        ≡ lines s.sent ++ sent_lines (held_header limit (length s.buf) s.header cs)
  unfolding on_calls on_call send_body flush_retry_to lines held_header sent_lines
  held_lines [] s opened held lim = sym (append-nil (lines s.sent))
  held_lines (set_header k vals ∷ cs) s opened held lim =
      held_lines cs (record s { header = insert k vals s.header }) opened held lim
  held_lines (write_header n ∷ cs) s opened held lim =
      ap (lines_of cs) (write_header_begun s n opened) ∙ held_lines cs s opened held lim
  held_lines (write p ∷ cs) s opened held lim =
      let room : 0 < s.buffer_limit = omega (arith, lim, big) in
      elim (Bool-cases (ltb limit (length s.buf + length p))) [
        | inl over ↦
            let before =
              s.sent ++ (add_header s.header ++ (status_sent s.status ∷ body_sent s.buf ∷ [])) in
            let s' = record s { sent = before ++ (body_sent p ∷ []); buf = []; retry = false } in
            let over' : ltb s.buffer_limit (length s.buf + length p) ≡ true =
              ground (arith, over, lim) in
            rw over (
              ap (lines_of cs) (write_begun s p opened ∙ write_over s p held room over')
              ∙ (streaming_lines cs s' opened refl
                  ∙ (lines-append before (body_sent p ∷ [])
                      ∙ (append-nil (lines before) ∙ lines_after s.sent _ s.header refl))))
        | inr fits ↦
            let s' = record s { buf = s.buf ++ p } in
            let fits' : ltb s.buffer_limit (length s.buf + length p) ≡ false =
              ground (arith, fits, lim) in
            rw fits (
              ap (lines_of cs) (write_begun s p opened ∙ write_fits s p held fits')
              ∙ (held_lines cs s' opened held lim
                  ∙ ap (λ n. lines s.sent ++ sent_lines (held_header limit n s.header cs))
                      (length-append s.buf p)))
      ]
  held_lines (flush ∷ cs) s opened held lim =
      ap (lines_of cs) (flush_held s held) ∙ held_lines cs s opened held lim

  pub on_calls-lines :
      (cs : List Call) (s : StreamWriter)
      → s.wrote_hdr ≡ false
      → s.retry ≡ false
      → s.buf ≡ []
      → s.buffer_limit ≡ limit
      → lines (on_calls cs s).sent ≡ lines s.sent ++ sent_lines (sent_header limit s.header cs)
  unfolding on_calls on_call send_body lines sent_header sent_lines
  on_calls-lines [] s fresh calm empty lim = sym (append-nil (lines s.sent))
  on_calls-lines (set_header k vals ∷ cs) s fresh calm empty lim =
      on_calls-lines cs (record s { header = insert k vals s.header }) fresh calm empty lim
  on_calls-lines (write_header n ∷ cs) s fresh calm empty lim = elim (Bool-cases (leb 500 n)) [
    | inl e ↦
        let s' = record s { wrote_hdr = true; status = n; retry = true } in
        rw e (
          ap (lines_of cs) (write_header_bad s n fresh e)
          ∙ held_lines cs s' refl refl lim
          ∙ ap (λ b. lines s.sent ++ sent_lines (held_header limit (length b) s.header cs)) empty)
    | inr e ↦
        let s' = record s {
          wrote_hdr = true;
          status = n;
          sent = s.sent ++ (add_header s.header ++ (status_sent n ∷ []));
        } in
        rw e (
          ap (lines_of cs) (write_header_good s n fresh e)
          ∙ streaming_lines cs s' refl calm
          ∙ lines_after s.sent (status_sent n ∷ []) s.header refl)
  ]
  on_calls-lines (write p ∷ cs) s fresh calm empty lim =
      let before = s.sent ++ (add_header s.header ++ (status_sent 200 ∷ [])) in
      let s' = record s { wrote_hdr = true; status = 200; sent = before ++ (body_sent p ∷ []) } in
      let opened = record s { wrote_hdr = true; status = 200; sent = before } in
      let good : leb 500 200 ≡ false = ground arith in
      ap (lines_of cs) (
        write_fresh s p fresh
        ∙ ap (write_started p) (write_header_good s 200 fresh good)
        ∙ write_calm opened p calm)
      ∙ streaming_lines cs s' refl calm
      ∙ lines-append before (body_sent p ∷ [])
      ∙ append-nil (lines before)
      ∙ lines_after s.sent (status_sent 200 ∷ []) s.header refl
  on_calls-lines (flush ∷ cs) s fresh calm empty lim =
      let s' = record s { sent = s.sent ++ (flushed ∷ []) } in
      ap (lines_of cs) (flush_calm s calm)
      ∙ on_calls-lines cs s' fresh calm empty lim
      ∙ ap (λ l. l ++ sent_lines (sent_header limit s.header cs))
          (lines-append s.sent (flushed ∷ []) ∙ append-nil (lines s.sent))

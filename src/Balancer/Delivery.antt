-- ===== src/Balancer/Delivery.antt =====
-- What reaches the client through the `streamWriter` of internal/balancer/balancer.go, whatever calls
-- ReverseProxy makes.
use netgoat.Prelude.{
  ℕ, ◌+◌, ◌<◌, ◌≡◌, refl, ap, ◌∙◌, true, false, List, [], ◌∷◌, ◌++◌, if◌then◌else◌, ltb, leb,
  length, arith, none, some, length-append, Bool-cases, inl, inr,
}
use mathlib.Core.List.{append_assoc, append-nil}
use netgoat.Std.Dict.{insert}
use netgoat.Std.Text.{Bytes, bytes_eq}
use netgoat.Balancer.Stream.{
  Call, set_header, write_header, write, flush, Sent, status_sent, body_sent, flushed, StreamWriter,
  attempt_writer, add_header, on_write_header, flush_retry_to, send_body, write_started, on_write,
  on_flush, on_call, on_calls,
}
use netgoat.Balancer.Phase.{
  body_of, statuses, first_status, written, Phase, waiting, holding, streaming, hold, begun,
  phase_of, NoInterim, final_phase, final_phase-phase_of, Shows, body_of-append, statuses-append,
  written_cons, sent_after,
}
use netgoat.Balancer.Lines.{lines, sent_header, sent_lines, on_calls-lines}

module _ (base : List Sent) (limit : ℕ) (big : 0 < limit) where
  Shows-write_header :
      (s : StreamWriter) (n : ℕ)
      → Shows base limit s waiting
      → Shows base limit (on_write_header n s) (begun limit n [])
  unfolding on_write_header begun hold Shows body_of statuses
  Shows-write_header s n (fresh, calm, empty, lim, b, st) =
      let (b', st') = sent_after s.sent (status_sent n ∷ []) s.header in
      let within : leb 0 limit ≡ true = ground arith in
      elim (Bool-cases (leb 500 n)) [
        | inl e ↦ rw (fresh, e, within) (refl, refl, empty, lim, b, st, refl, within)
        | inr e ↦
            rw (fresh, e)
              (
                refl,
                calm,
                empty,
                lim,
                b' ∙ ap (λ x. x ++ []) b,
                st' ∙ ap (λ x. x ++ (n ∷ [])) st,
                refl,
              )
      ]

  Shows-write_held :
      (s : StreamWriter) (n : ℕ) (w p : Bytes)
      → Shows base limit s (holding n w)
      → Shows base limit (write_started p s) (hold limit n (w ++ p))
  unfolding write_started send_body flush_retry_to hold Shows body_of statuses
  Shows-write_held s n w p (opened, retry, buf, lim, b, st, code, small) =
      let some_limit : ltb 0 limit ≡ true = ground arith in
      let sizes = length-append w p in
      let (b', st') = sent_after s.sent (status_sent n ∷ body_sent w ∷ []) s.header in
      let flushed_to = s.sent ++ (add_header s.header ++ (status_sent n ∷ body_sent w ∷ [])) in
      elim (Bool-cases (leb (length (w ++ p)) limit)) [
        | inl e ↦
            let fits : ltb limit (length w + length p) ≡ false = ground (arith, e, sizes) in
            rw (retry, lim, buf, some_limit, fits, e) (opened, refl, refl, refl, b, st, code, e)
        | inr e ↦
            let over : ltb limit (length w + length p) ≡ true = ground (arith, e, sizes) in
            rw (retry, lim, buf, some_limit, over, e, code)
              (
                opened,
                refl,
                refl,
                refl,
                body_of-append flushed_to (body_sent p ∷ [])
                    ∙ simp (b', b, append_assoc, append-nil),
                statuses-append flushed_to (body_sent p ∷ [])
                    ∙ simp (st', st, append_assoc, append-nil),
                refl,
              )
      ]

  Shows-write_streaming :
      (s : StreamWriter) (n : ℕ) (w p : Bytes)
      → Shows base limit s (streaming n w)
      → Shows base limit (write_started p s) (streaming n (w ++ p))
  unfolding write_started send_body Shows body_of statuses
  Shows-write_streaming s n w p (opened, retry, buf, lim, b, st, code) = rw retry (
    opened,
    refl,
    buf,
    lim,
    body_of-append s.sent (body_sent p ∷ []) ∙ simp (b, append_assoc, append-nil),
    statuses-append s.sent (body_sent p ∷ []) ∙ simp (st, append_assoc, append-nil),
    code,
  )

  -- A call, and then a list of them, in each phase.
  unfoldable resume : Phase → List Call → Phase
  resume waiting cs = phase_of limit cs
  resume (holding n w) cs = hold limit n (w ++ written cs)
  resume (streaming n w) cs = streaming n (w ++ written cs)

  on_write_fresh :
      (s : StreamWriter) (p : Bytes)
      → s.wrote_hdr ≡ false
      → on_write p s ≡ write_started p (on_write_header 200 s)
  unfolding on_write
  on_write_fresh s p e = ap (λ b. write_started p (if b then s else on_write_header 200 s)) e

  on_write_begun :
      (s : StreamWriter) (p : Bytes) → s.wrote_hdr ≡ true → on_write p s ≡ write_started p s
  unfolding on_write
  on_write_begun s p e = ap (λ b. write_started p (if b then s else on_write_header 200 s)) e

  on_write_header_begun : (s : StreamWriter) (n : ℕ) → s.wrote_hdr ≡ true → on_write_header n s ≡ s
  unfolding on_write_header
  on_write_header_begun s n e = ground (arith, e)

  on_flush_retry : (s : StreamWriter) → s.retry ≡ true → on_flush s ≡ s
  unfolding on_flush
  on_flush_retry s e = ground (arith, e)

  on_flush_calm :
      (s : StreamWriter)
      → s.retry ≡ false
      → on_flush s ≡ record s { sent = s.sent ++ (flushed ∷ []) }
  unfolding on_flush
  on_flush_calm s e = ground (arith, e)

  hold_nil :
      (n : ℕ) (w : Bytes) → leb (length w) limit ≡ true → hold limit n (w ++ []) ≡ holding n w
  unfolding hold
  hold_nil n w small = rw (append-nil w, small) refl

  Shows-on_write :
      (s : StreamWriter) (ph : Phase) (p : Bytes)
      → Shows base limit s ph
      → Shows base limit (on_write p s) (resume ph (write p ∷ []))
  unfolding resume Shows phase_of begun first_status written
  Shows-on_write s waiting p v =
      rw (on_write_fresh s p v.0, append-nil p)
        (Shows-write_streaming (on_write_header 200 s) 200 [] p (Shows-write_header s 200 v))
  Shows-on_write s (holding n w) p v =
      rw (on_write_begun s p v.0, append-nil p) (Shows-write_held s n w p v)
  Shows-on_write s (streaming n w) p v =
      rw (on_write_begun s p v.0, append-nil p) (Shows-write_streaming s n w p v)

  Shows-on_flush :
      (s : StreamWriter) (ph : Phase) → Shows base limit s ph → Shows base limit (on_flush s) ph
  unfolding Shows body_of statuses
  Shows-on_flush s waiting (fresh, calm, empty, lim, b, st) = rw (on_flush_calm s calm) (
    fresh,
    calm,
    empty,
    lim,
    body_of-append s.sent (flushed ∷ []) ∙ simp (b, append-nil),
    statuses-append s.sent (flushed ∷ []) ∙ simp (st, append-nil),
  )
  Shows-on_flush s (holding n w) v = rw (on_flush_retry s v.1) v
  Shows-on_flush s (streaming n w) (opened, calm, empty, lim, b, st, code) =
      rw (on_flush_calm s calm) (
        opened,
        calm,
        empty,
        lim,
        body_of-append s.sent (flushed ∷ []) ∙ simp (b, append-nil),
        statuses-append s.sent (flushed ∷ []) ∙ simp (st, append-nil),
        code,
      )

  -- A call that has no part in the body.
  Shows-resume_nil :
      (s : StreamWriter) (ph : Phase) → Shows base limit s ph → Shows base limit s (resume ph [])
  unfolding resume Shows phase_of first_status written
  Shows-resume_nil s waiting v = v
  Shows-resume_nil s (holding n w) v =
      let (_, _, _, _, _, _, _, small) = v in rw (hold_nil n w small) v
  Shows-resume_nil s (streaming n w) v = rw (append-nil w) v

  Shows-set_header :
      (s : StreamWriter) (ph : Phase) (k : Bytes) (vals : List Bytes)
      → Shows base limit s ph
      → Shows base limit (record s { header = insert k vals s.header }) ph
  unfolding Shows
  Shows-set_header s waiting k vals v = v
  Shows-set_header s (holding n w) k vals v = v
  Shows-set_header s (streaming n w) k vals v = v

  resume_skip :
      (ph : Phase) (c : Call)
      → first_status (c ∷ []) ≡ none
      → written (c ∷ []) ≡ []
      → resume ph (c ∷ []) ≡ resume ph []
  unfolding resume phase_of
  resume_skip waiting c e e' =
      unfold first_status in
      (ap (λ o. elim o [ none ↦ waiting | some n ↦ begun limit n (written (c ∷ [])) ]) e)
  resume_skip (holding n w) c e e' = rw e' (unfold written in refl)
  resume_skip (streaming n w) c e e' = rw e' (unfold written in refl)

  Shows-on_call :
      (s : StreamWriter) (ph : Phase) (c : Call)
      → Shows base limit s ph
      → Shows base limit (on_call c s) (resume ph (c ∷ []))
  unfolding on_call resume phase_of first_status written
  Shows-on_call s ph (set_header k vals) v = rw (resume_skip ph (set_header k vals) refl refl) (
      Shows-resume_nil (record s { header = insert k vals s.header }) ph
        (Shows-set_header s ph k vals v))
  Shows-on_call s waiting (write_header n) v = Shows-write_header s n v
  Shows-on_call s (holding n w) (write_header m) v =
      rw (on_write_header_begun s m (unfold Shows in v.0)) (Shows-resume_nil s (holding n w) v)
  Shows-on_call s (streaming n w) (write_header m) v =
      rw (on_write_header_begun s m (unfold Shows in v.0)) (Shows-resume_nil s (streaming n w) v)
  Shows-on_call s ph (write p) v = Shows-on_write s ph p v
  Shows-on_call s ph flush v =
      rw (resume_skip ph flush refl refl) (Shows-resume_nil (on_flush s) ph (Shows-on_flush s ph v))

  resume-hold :
      (n : ℕ) (w : Bytes) (cs : List Call)
      → resume (hold limit n w) cs ≡ hold limit n (w ++ written cs)
  unfolding hold resume
  resume-hold n w cs =
      let sizes = length-append w (written cs) in
      elim (Bool-cases (leb (length w) limit)) [
        | inl e ↦ rw e refl
        | inr e ↦
            let over : leb (length (w ++ written cs)) limit ≡ false = ground (arith, e, sizes) in
            rw (e, over) refl
      ]

  resume-begun :
      (n : ℕ) (w : Bytes) (cs : List Call)
      → resume (begun limit n w) cs ≡ begun limit n (w ++ written cs)
  unfolding begun
  resume-begun n w cs = elim (Bool-cases (leb 500 n)) [
    | inl e ↦ rw e (resume-hold n w cs)
    | inr e ↦ rw e (unfold resume in refl)
  ]

  resume_cons :
      (ph : Phase) (c : Call) (cs : List Call) → resume (resume ph (c ∷ [])) cs ≡ resume ph (c ∷ cs)
  unfolding resume phase_of first_status written
  resume_cons waiting (set_header k vals) cs = refl
  resume_cons waiting (write_header n) cs = resume-begun n [] cs
  resume_cons waiting (write p) cs =
      resume-begun 200 (p ++ []) cs ∙ ap (begun limit 200) (append_assoc p [] (written cs))
  resume_cons waiting flush cs = refl
  resume_cons (holding n w) c cs =
      resume-hold n (w ++ written (c ∷ [])) cs
      ∙ ap (hold limit n)
          (append_assoc w (written (c ∷ [])) (written cs) ∙ ap (◌++◌ w) (written_cons c cs))
  resume_cons (streaming n w) c cs =
      ap (streaming n)
        (append_assoc w (written (c ∷ [])) (written cs) ∙ ap (◌++◌ w) (written_cons c cs))

  Shows-on_calls :
      (cs : List Call) (s : StreamWriter) (ph : Phase)
      → Shows base limit s ph
      → Shows base limit (on_calls cs s) (resume ph cs)
  unfolding on_calls
  Shows-on_calls [] s ph v = Shows-resume_nil s ph v
  Shows-on_calls (c ∷ cs) s ph v =
      rw (← resume_cons ph c cs)
        (Shows-on_calls cs (on_call c s) (resume ph (c ∷ [])) (Shows-on_call s ph c v))

pub Shows-phase_of :
    (base : List Sent) (limit : ℕ) (cs : List Call)
    → 0 < limit
    → Shows base limit (on_calls cs (attempt_writer limit base)) (phase_of limit cs)
unfolding attempt_writer Shows phase_of resume
Shows-phase_of base limit cs big =
    Shows-on_calls base limit big cs (attempt_writer limit base) waiting
      (refl, refl, refl, refl, refl, refl)

-- Whatever ReverseProxy calls for an upstream that sends no informational response: no status and no
-- byte of the body has reached the client as long as the response is not begun, or is a server error
-- of at most `limit` bytes, which is held back; any other response has reached it with its final
-- status, once, and with every byte in order. And the header lines that have reached it are those of
-- the header as it stood when the response went out, or none if it has not.
pub on_calls-phase_of :
    (base : List Sent) (limit : ℕ) (cs : List Call)
    → 0 < limit
    → NoInterim cs
    → let s = on_calls cs (attempt_writer limit base) in
      Shows base limit s (final_phase limit cs)
      × (lines s.sent ≡ lines base ++ sent_lines (sent_header limit [] cs))
unfolding attempt_writer
on_calls-phase_of base limit cs big plain = (
  rw (final_phase-phase_of limit cs plain) (Shows-phase_of base limit cs big),
  on_calls-lines limit big cs (attempt_writer limit base) refl refl refl refl,
)

-- ===== src/Balancer/Attempts.antt =====
-- One round of `ProxyHandler.Serve` of internal/balancer/balancer.go: what the client has got at its
-- end.
use netgoat.Prelude.{
  ℕ, ◌≡◌, refl, sym, ap, ◌∙◌, Bool, true, false, List, [], ◌∷◌, ◌++◌, leb, length, arith, Option,
  none, some, Bool-cases, Option-cases, inl, inr, ◌⊎◌,
}
use mathlib.Core.List.{append-nil}
use netgoat.Std.Text.{Bytes, bytes_eq}
use netgoat.Health.Worker.{}
use netgoat.Balancer.Pick.{}
use netgoat.Balancer.Stream.{
  Call, set_header, write_header, write, flush, Sent, status_sent, body_sent, StreamWriter,
  attempt_writer, max_retry_response_bytes, on_calls, flush_retry_to,
}
use netgoat.Balancer.Phase.{
  Phase, body_of, statuses, first_status, written, waiting, holding, streaming, hold, begun,
  phase_of, Shows, sent_after, final_status, NoInterim, final_phase, final_status-first,
  final_phase-phase_of,
}
use netgoat.Balancer.Delivery.{Shows-phase_of}
use netgoat.Balancer.Held.{on_calls-header, sent_header-waiting, sent_header-holding}
use netgoat.Balancer.Lines.{
  lines, header_lines, header_of, sent_header, sent_lines, lines_after, on_calls-lines,
}
use netgoat.Balancer.Serve.{
  proxy_failed, invalid_target, Env, Attempt, invalid_url, proxied, Round, return, retry, again,
  proxied_round, attempt_round, Error,
}

-- An upstream that sends no informational response and switches no protocol: ReverseProxy then reports
-- an error to `ErrorHandler`, which is for errors in reaching the upstream, only before a response.
abbrev pub IsPlain : List Call → Bool → Type 0
IsPlain calls failed = NoInterim calls × (failed ≡ true → final_status calls ≡ none)

abbrev pub AnswersPlainly : Env → Type 0
AnswersPlainly env =
    (k : ℕ) (t : Bytes) (calls : List Call) (failed : Bool)
    → env.attempt k t ≡ proxied calls failed
    → IsPlain calls failed

-- Nothing of a response has reached the client: no byte, no status and no header line.
unfoldable pub IsUnsent : List Sent → Type 0
IsUnsent sent = (body_of sent ≡ []) × (statuses sent ≡ []) × (lines sent ≡ [])

unfoldable pub status_list : Option ℕ → List ℕ
status_list none = []
status_list (some n) = n ∷ []

-- The header lines of an answer: as the header stood when the response went out, or at the end for one
-- that was held back until then.
unfoldable pub lines_at : List Call → Phase → List (Bytes × Bytes)
lines_at calls waiting = []
lines_at calls (holding n w) = header_lines (header_of [] calls)
lines_at calls (streaming n w) = sent_lines (sent_header max_retry_response_bytes [] calls)

-- The answer `calls` has reached the client: its whole body, its final status and its header lines.
unfoldable pub IsAnswer : List Call → List Sent → Type 0
IsAnswer calls sent =
    (body_of sent ≡ written calls)
    × (statuses sent ≡ status_list (final_status calls))
    × (lines sent ≡ lines_at calls (final_phase max_retry_response_bytes calls))

written_nil : (cs : List Call) → first_status cs ≡ none → written cs ≡ []
unfolding written first_status
written_nil [] e = refl
written_nil (set_header k vals ∷ cs) e = written_nil cs e
written_nil (write_header n ∷ cs) e = cc
written_nil (write p ∷ cs) e = cc
written_nil (flush ∷ cs) e = written_nil cs e

-- A round of an attempt: what the client has got at its end.
unfoldable pub Ends : Bool → Attempt → Round → Type 0
Ends safe att (return sent none) =
    (calls : List Call) × (att ≡ proxied calls false) × IsAnswer calls sent
Ends safe att (return sent (some err)) = IsUnsent sent
Ends safe att (retry sent err) = (safe ≡ true) × IsUnsent sent

Ends-again :
    (safe : Bool) (att : Attempt) (sent : List Sent) (err : Error)
    → IsUnsent sent
    → Ends safe att (again safe sent err)
unfolding Ends again
Ends-again true att sent err u = (refl, u)
Ends-again false att sent err u = u

begun-cases :
    (limit n : ℕ) (w : Bytes) → (begun limit n w ≡ holding n w) ⊎ (begun limit n w ≡ streaming n w)
unfolding begun hold
begun-cases limit n w = elim (Bool-cases (leb 500 n)) [
  | inl big ↦ elim (Bool-cases (leb (length w) limit)) [
    | inl small ↦ inl (simp (big, small))
    | inr large ↦ inr (simp (big, large))
  ]
  | inr little ↦ inr (simp little)
]

phase_of-cases :
    (limit : ℕ) (calls : List Call)
    → ((first_status calls ≡ none) × (phase_of limit calls ≡ waiting))
      ⊎ ((n : ℕ) × (first_status calls ≡ some n)
          × ((phase_of limit calls ≡ holding n (written calls))
              ⊎ (phase_of limit calls ≡ streaming n (written calls))))
unfolding phase_of
phase_of-cases limit calls = elim (Option-cases (first_status calls)) [
  | inl e ↦ inl (e, ap phase_at e)
  | inr (n, e) ↦ inr (
    n,
    e,
    elim (begun-cases limit n (written calls)) [
      | inl held ↦ inl (ap phase_at e ∙ held)
      | inr sent ↦ inr (ap phase_at e ∙ sent)
    ],
  )
]
  where
    phase_at : Option ℕ → Phase
    phase_at o = elim o [ none ↦ waiting | some n ↦ begun limit n (written calls) ]

phase_of-some :
    (limit : ℕ) (calls : List Call) (n : ℕ)
    → first_status calls ≡ some n
    → phase_of limit calls ≡ begun limit n (written calls)
unfolding phase_of
phase_of-some limit calls n e =
    ap (λ o. elim o [ none ↦ waiting | some n ↦ begun limit n (written calls) ]) e

module _ (sent : List Sent) (u : IsUnsent sent) (calls : List Call) (plain : NoInterim calls) where
  abbrev writer : StreamWriter
  writer = on_calls calls (attempt_writer max_retry_response_bytes sent)

  shown :
      (ph : Phase)
      → phase_of max_retry_response_bytes calls ≡ ph
      → Shows sent max_retry_response_bytes writer ph
  shown ph e = rw (← e) (Shows-phase_of sent max_retry_response_bytes calls (omega arith))

  writer_lines : lines writer.sent ≡ sent_lines (sent_header max_retry_response_bytes [] calls)
  unfolding attempt_writer IsUnsent
  writer_lines =
      on_calls-lines max_retry_response_bytes (omega arith) calls
        (attempt_writer max_retry_response_bytes sent) refl refl refl refl
      ∙ ap (λ l. l ++ sent_lines (sent_header max_retry_response_bytes [] calls)) u.2

  no_lines : sent_header max_retry_response_bytes [] calls ≡ none → lines writer.sent ≡ []
  unfolding sent_lines
  no_lines e = writer_lines ∙ ap sent_lines e

  answer_lines :
      (ph : Phase)
      → phase_of max_retry_response_bytes calls ≡ ph
      → lines_at calls ph ≡ lines_at calls (final_phase max_retry_response_bytes calls)
  answer_lines ph e =
      ap (lines_at calls) (sym e ∙ sym (final_phase-phase_of max_retry_response_bytes calls plain))

  status_lines : status_list (first_status calls) ≡ status_list (final_status calls)
  status_lines = ap status_list (sym (final_status-first calls plain))

  Ends-failed :
      (safe : Bool) (att : Attempt)
      → first_status calls ≡ none
      → phase_of max_retry_response_bytes calls ≡ waiting
      → Ends safe att (proxied_round safe writer true)
  unfolding proxied_round Shows IsUnsent
  Ends-failed safe att none_yet e =
      let (_, _, _, _, b, st) = shown waiting e in
      Ends-again safe att writer.sent proxy_failed (
        b ∙ u.0,
        st ∙ u.1,
        no_lines (sent_header-waiting max_retry_response_bytes [] calls none_yet),
      )

  Ends-streamed :
      (safe : Bool)
      → writer.retry ≡ false
      → IsAnswer calls writer.sent
      → Ends safe (proxied calls false) (proxied_round safe writer false)
  unfolding proxied_round Ends
  Ends-streamed safe e answer = rw e (calls, refl, answer)

  Ends-held :
      (safe : Bool)
      → writer.retry ≡ true
      → IsUnsent writer.sent
      → IsAnswer calls (flush_retry_to writer).sent
      → Ends safe (proxied calls false) (proxied_round safe writer false)
  unfolding proxied_round Ends flush_retry_to
  Ends-held true e unsent answer = rw e (refl, unsent)
  Ends-held false e unsent answer = rw e (calls, refl, answer)

  Ends-answered : (safe : Bool) → Ends safe (proxied calls false) (proxied_round safe writer false)
  unfolding Shows IsUnsent IsAnswer status_list flush_retry_to body_of statuses lines lines_at
      header_lines attempt_writer
  Ends-answered safe = elim (phase_of-cases max_retry_response_bytes calls) [
    | inl (none_yet, e) ↦
        let (_, calm, _, _, b, st) = shown waiting e in
        Ends-streamed safe calm (
          b ∙ u.0 ∙ sym (written_nil calls none_yet),
          st ∙ u.1 ∙ ap status_list (sym none_yet) ∙ status_lines,
          no_lines (sent_header-waiting max_retry_response_bytes [] calls none_yet)
              ∙ answer_lines waiting e,
        )
    | inr (n, code, inl e) ↦
        let (_, held, buf, _, b, st, is_n, _) = shown (holding n (written calls)) e in
        let after = status_sent writer.status ∷ body_sent writer.buf ∷ [] in
        let (b', st') = sent_after writer.sent after writer.header in
        let unsent = no_lines (
          sent_header-holding max_retry_response_bytes n [] calls code
            (sym (phase_of-some max_retry_response_bytes calls n code) ∙ e)) in
        Ends-held safe held (b ∙ u.0, st ∙ u.1, unsent)
          (
            b' ∙ simp (b, u.0, buf, append-nil),
            st' ∙ (simp (st, u.1, is_n)) ∙ ap status_list (sym code) ∙ status_lines,
            lines_after writer.sent after writer.header refl
                ∙ ap (λ l. l ++ header_lines writer.header) unsent
                ∙ ap header_lines
                    (on_calls-header calls (attempt_writer max_retry_response_bytes sent))
                ∙ answer_lines (holding n (written calls)) e,
          )
    | inr (n, code, inr e) ↦
        let (_, calm, _, _, b, st, _) = shown (streaming n (written calls)) e in
        Ends-streamed safe calm (
          b ∙ simp (u.0),
          st ∙ (simp (u.1)) ∙ ap status_list (sym code) ∙ status_lines,
          writer_lines ∙ answer_lines (streaming n (written calls)) e,
        )
  ]

pub attempt_round-Ends :
    (safe : Bool) (att : Attempt) (sent : List Sent)
    → ((calls : List Call) (failed : Bool) → att ≡ proxied calls failed → IsPlain calls failed)
    → IsUnsent sent
    → Ends safe att (attempt_round safe sent att)
unfolding attempt_round
attempt_round-Ends safe invalid_url sent early u = Ends-again safe invalid_url sent invalid_target u
attempt_round-Ends safe (proxied calls false) sent early u =
    Ends-answered sent u calls (early calls false refl).0 safe
attempt_round-Ends safe (proxied calls true) sent early u =
    let (plain, unbegun) = early calls true refl in
    let none_yet = sym (final_status-first calls plain) ∙ unbegun refl in
    Ends-failed sent u calls plain safe (proxied calls true) none_yet (
      unfold phase_of in
      ap
        (λ o. elim o [ none ↦ waiting | some n ↦ begun max_retry_response_bytes n (written calls) ])
        none_yet)

-- ===== src/Balancer/Phase.antt =====
-- The response of an upstream, as the calls on `streamWriter` of internal/balancer/balancer.go make
-- it, and how far it has come.
use netgoat.Prelude.{
  ℕ, ◌≡◌, refl, ap, ◌∙◌, true, false, List, [], ◌∷◌, ◌++◌, if◌then◌else◌, leb, length, Option, none,
  some, ◌≤◌, ltb, arith,
}
use mathlib.Core.List.{append_assoc}
use netgoat.Std.Dict.{Dict}
use netgoat.Std.Text.{Bytes, bytes_eq}
use netgoat.Balancer.Stream.{
  Call, set_header, write_header, write, flush, Sent, added, status_sent, body_sent, flushed,
  StreamWriter, add_values, add_header,
}

-- The body bytes and the status codes that the client's writer was given.
unfoldable pub body_of : List Sent → Bytes
body_of [] = []
body_of (added k v ∷ l) = body_of l
body_of (status_sent n ∷ l) = body_of l
body_of (body_sent p ∷ l) = p ++ body_of l
body_of (flushed ∷ l) = body_of l

unfoldable pub statuses : List Sent → List ℕ
statuses [] = []
statuses (added k v ∷ l) = statuses l
statuses (status_sent n ∷ l) = n ∷ statuses l
statuses (body_sent p ∷ l) = statuses l
statuses (flushed ∷ l) = statuses l

-- What was written first: the first status, 200 if the body comes first, and the whole body.
unfoldable pub first_status : List Call → Option ℕ
first_status [] = none
first_status (set_header k vals ∷ cs) = first_status cs
first_status (write_header n ∷ cs) = some n
first_status (write p ∷ cs) = some 200
first_status (flush ∷ cs) = first_status cs

-- The final status, which no informational one is, and calls without an informational status.
unfoldable pub final_status : List Call → Option ℕ
final_status [] = none
final_status (set_header k vals ∷ cs) = final_status cs
final_status (write_header n ∷ cs) =
    let rest = final_status cs in if ltb n 200 then rest else some n
final_status (write p ∷ cs) = some 200
final_status (flush ∷ cs) = final_status cs

unfoldable pub NoInterim : List Call → Type 0
NoInterim [] = Unit
NoInterim (set_header k vals ∷ cs) = NoInterim cs
NoInterim (write_header n ∷ cs) = (200 ≤ n) × NoInterim cs
NoInterim (write p ∷ cs) = NoInterim cs
NoInterim (flush ∷ cs) = NoInterim cs

pub final_status-first : (cs : List Call) → NoInterim cs → final_status cs ≡ first_status cs
unfolding final_status first_status NoInterim
final_status-first [] h = refl
final_status-first (set_header k vals ∷ cs) h = final_status-first cs h
final_status-first (write_header n ∷ cs) (final, h) =
    let large : ltb n 200 ≡ false = ground (arith, final) in rw large refl
final_status-first (write p ∷ cs) h = refl
final_status-first (flush ∷ cs) h = final_status-first cs h

unfoldable pub written : List Call → Bytes
written [] = []
written (set_header k vals ∷ cs) = written cs
written (write_header n ∷ cs) = written cs
written (write p ∷ cs) = p ++ written cs
written (flush ∷ cs) = written cs

-- A response is not begun, is a server error that is held back, or is on its way to the client.
pub data Phase : Type 0 where
  waiting : Phase
  holding : ℕ → Bytes → Phase
  streaming : ℕ → Bytes → Phase

unfoldable pub hold : ℕ → ℕ → Bytes → Phase
hold limit n w = if leb (length w) limit then holding n w else streaming n w

unfoldable pub begun : ℕ → ℕ → Bytes → Phase
begun limit n w = if leb 500 n then hold limit n w else streaming n w

unfoldable pub phase_of : ℕ → List Call → Phase
phase_of limit cs = elim (first_status cs) [ none ↦ waiting | some n ↦ begun limit n (written cs) ]

-- The phase by the final status.
unfoldable pub final_phase : ℕ → List Call → Phase
final_phase limit cs = elim (final_status cs) [
  | none ↦ waiting
  | some n ↦ begun limit n (written cs)
]

pub final_phase-phase_of :
    (limit : ℕ) (cs : List Call) → NoInterim cs → final_phase limit cs ≡ phase_of limit cs
unfolding final_phase phase_of
final_phase-phase_of limit cs h =
    ap (λ o. elim o [ none ↦ waiting | some n ↦ begun limit n (written cs) ])
      (final_status-first cs h)

-- In each phase: the state of the writer, and what was sent to a client that had got `base` before.
unfoldable pub Shows : List Sent → ℕ → StreamWriter → Phase → Type 0
Shows base limit s waiting =
    (s.wrote_hdr ≡ false)
    × (s.retry ≡ false)
    × (s.buf ≡ [])
    × (s.buffer_limit ≡ limit)
    × (body_of s.sent ≡ body_of base)
    × (statuses s.sent ≡ statuses base)
Shows base limit s (holding n w) =
    (s.wrote_hdr ≡ true)
    × (s.retry ≡ true)
    × (s.buf ≡ w)
    × (s.buffer_limit ≡ limit)
    × (body_of s.sent ≡ body_of base)
    × (statuses s.sent ≡ statuses base)
    × (s.status ≡ n)
    × (leb (length w) limit ≡ true)
Shows base limit s (streaming n w) =
    (s.wrote_hdr ≡ true)
    × (s.retry ≡ false)
    × (s.buf ≡ [])
    × (s.buffer_limit ≡ limit)
    × (body_of s.sent ≡ body_of base ++ w)
    × (statuses s.sent ≡ statuses base ++ (n ∷ []))
    × (s.status ≡ n)

pub body_of-append : (k l : List Sent) → body_of (k ++ l) ≡ body_of k ++ body_of l
unfolding body_of
body_of-append [] l = refl
body_of-append (added k v ∷ s) l = body_of-append s l
body_of-append (status_sent n ∷ s) l = body_of-append s l
body_of-append (body_sent p ∷ s) l = simp (body_of-append s l, append_assoc)
body_of-append (flushed ∷ s) l = body_of-append s l

pub statuses-append : (k l : List Sent) → statuses (k ++ l) ≡ statuses k ++ statuses l
unfolding statuses
statuses-append [] l = refl
statuses-append (added k v ∷ s) l = statuses-append s l
statuses-append (status_sent n ∷ s) l = ap (◌∷◌ n) (statuses-append s l)
statuses-append (body_sent p ∷ s) l = statuses-append s l
statuses-append (flushed ∷ s) l = statuses-append s l

-- Header lines are neither.
module _ (l : List Sent) where
  plain_values :
      (k : Bytes) (vals : List Bytes)
      → (body_of (add_values k vals ++ l) ≡ body_of l)
        × (statuses (add_values k vals ++ l) ≡ statuses l)
  unfolding add_values body_of statuses
  plain_values k [] = (refl, refl)
  plain_values k (v ∷ vals) = plain_values k vals

pub plain_header :
    (header : Dict Bytes (List Bytes)) (l : List Sent)
    → (body_of (add_header header ++ l) ≡ body_of l)
      × (statuses (add_header header ++ l) ≡ statuses l)
unfolding add_header
plain_header [] l = (refl, refl)
plain_header ((k, vals) ∷ header) l =
    let (b, s) = plain_header header l in
    let (b', s') = plain_values (add_header header ++ l) k vals in
    let assoc = append_assoc (add_values k vals) (add_header header) l in
    (ap body_of assoc ∙ (b' ∙ b), ap statuses assoc ∙ (s' ∙ s))

pub written_cons : (c : Call) (cs : List Call) → written (c ∷ []) ++ written cs ≡ written (c ∷ cs)
unfolding written
written_cons (set_header k vals) cs = refl
written_cons (write_header n) cs = refl
written_cons (write p) cs = append_assoc p [] (written cs)
written_cons flush cs = refl

pub sent_after :
    (k l : List Sent) (header : Dict Bytes (List Bytes))
    → (body_of (k ++ (add_header header ++ l)) ≡ body_of k ++ body_of l)
      × (statuses (k ++ (add_header header ++ l)) ≡ statuses k ++ statuses l)
sent_after k l header =
    let (b, s) = plain_header header l in
    (
      body_of-append k (add_header header ++ l) ∙ ap (◌++◌ (body_of k)) b,
      statuses-append k (add_header header ++ l) ∙ ap (◌++◌ (statuses k)) s,
    )

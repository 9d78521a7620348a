-- ===== src/Metrics/Writer.antt =====
-- `ResponseWriter` of internal/metrics/metrics.go, around the writer of the client. What that writer
-- takes of a body is part of the call.
use netgoat.Prelude.{
  ℕ, ◌+◌, ◌≡◌, ◌≢◌, refl, sym, ap, ◌∙◌, false, not, Bool-cases, inl, inr, List, [], ◌∷◌, ◌++◌,
  if◌then◌else◌, ◌==◌, eq_of_==, nat_eq, arith, All,
}
use mathlib.Core.List.{append_assoc, append-nil}
use netgoat.Std.Text.{Bytes}

-- A call: the status, or a body of which the client's writer takes `n` bytes.
pub data Call : Type 0 where
  write_header : ℕ → Call
  write : Bytes → ℕ → Call

-- A call that reaches the client's writer.
pub data Sent : Type 0 where
  status_sent : ℕ → Sent
  body_sent : Bytes → Sent

pub record ResponseWriter : Type 0 where
  pub status : ℕ
  pub bytes : ℕ
  pub sent : List Sent

abbrev pub wrap_response_writer : ResponseWriter
wrap_response_writer = record { status = 0; bytes = 0; sent = [] }

unfoldable pub apply : Call → ResponseWriter → ResponseWriter
apply (write_header status) w =
    if not (w.status == 0)
    then w
    else record w { status = status; sent = w.sent ++ status_sent status ∷ [] }
apply (write b n) w = record w {
  status = if w.status == 0 then 200 else w.status;
  bytes = w.bytes + n;
  sent = w.sent ++ body_sent b ∷ [];
}

unfoldable pub apply_all : List Call → ResponseWriter → ResponseWriter
apply_all [] w = w
apply_all (c ∷ calls) w = apply_all calls (apply c w)

-- The body calls, and what the client's writer took of them.
unfoldable pub bodies : List Call → List Sent
bodies [] = []
bodies (write_header status ∷ calls) = bodies calls
bodies (write b n ∷ calls) = body_sent b ∷ bodies calls

unfoldable pub taken : List Call → ℕ
taken [] = 0
taken (write_header status ∷ calls) = taken calls
taken (write b n ∷ calls) = n + taken calls

-- The status is that of the first call, and only a first call sends one.
unfoldable pub first_status : List Call → ℕ
first_status [] = 0
first_status (write_header status ∷ calls) = status
first_status (write b n ∷ calls) = 200

unfoldable pub first_header : List Call → List Sent
first_header [] = []
first_header (write_header status ∷ calls) = status_sent status ∷ []
first_header (write b n ∷ calls) = []

same_writer :
    (status b b' : ℕ) (s s' : List Sent)
    → b ≡ b'
    → s ≡ s'
    → Path ResponseWriter
        (record { status = status; bytes = b; sent = s })
        (record { status = status; bytes = b'; sent = s' })
same_writer status b b' s s' p q = cc

-- Once there is a status, a header is dropped and a body is passed on.
committed :
    (calls : List Call) (w : ResponseWriter)
    → (w.status == 0) ≡ false
    → apply_all calls w
      ≡ record { status = w.status; bytes = w.bytes + taken calls; sent = w.sent ++ bodies calls }
unfolding apply_all apply bodies taken
committed [] w set =
    same_writer w.status w.bytes (w.bytes + 0) w.sent (w.sent ++ []) (omega arith)
      (sym (append-nil w.sent))
committed (write_header status ∷ calls) w set = rw (set) (committed calls w set)
committed (write b n ∷ calls) w set = rw set (
    committed calls
      (record { status = w.status; bytes = w.bytes + n; sent = w.sent ++ body_sent b ∷ [] }) set
    ∙ same_writer w.status (w.bytes + n + taken calls) (w.bytes + (n + taken calls))
        ((w.sent ++ body_sent b ∷ []) ++ bodies calls) (w.sent ++ body_sent b ∷ bodies calls)
        (omega arith) (append_assoc w.sent (body_sent b ∷ []) (bodies calls)))

nonzero : (status : ℕ) → write_header status ≢ write_header 0 → (status == 0) ≡ false
nonzero status set = elim (Bool-cases (status == 0)) [
  | inl zero_status ↦ absurd (set (ap write_header (eq_of_== status 0 zero_status)))
  | inr set_status ↦ set_status
]

-- The first call decides: its status, or 200 for a body, is what `Status` returns, and every later
-- `WriteHeader` is dropped; the bodies all pass, and `BytesWritten` is what was taken of them.
apply_all-first_status :
    (calls : List Call)
    → All (λ c. c ≢ write_header 0) calls
    → apply_all calls wrap_response_writer ≡ record {
      status = first_status calls;
      bytes = taken calls;
      sent = first_header calls ++ bodies calls;
    }
unfolding apply_all apply bodies taken first_status first_header
apply_all-first_status [] valid = refl
apply_all-first_status (write_header status ∷ calls) (set, valid) =
    committed calls (record { status = status; bytes = 0; sent = status_sent status ∷ [] })
      (nonzero status set)
    ∙ same_writer status (0 + taken calls) (taken calls) (status_sent status ∷ bodies calls)
        (status_sent status ∷ bodies calls) (omega arith) refl
apply_all-first_status (write b n ∷ calls) (set, valid) =
    committed calls (record { status = 200; bytes = 0 + n; sent = body_sent b ∷ [] }) refl
    ∙ same_writer 200 (0 + n + taken calls) (n + taken calls) (body_sent b ∷ bodies calls)
        (body_sent b ∷ bodies calls) (omega arith) refl

-- ===== src/Metrics/Tests.antt =====
-- Runs of the recorder and of the writer, and the theorems on them.
use netgoat.Prelude.{
  ℕ, suc, ◌^◌, ◌%◌, ◌≤◌, ◌≡◌, ◌≢◌, refl, some, List, [], ◌∷◌, length, pos, nat_eq,
}
use netgoat.Std.Text.{Bytes, bytes_eq, codes}
use netgoat.Metrics.Recorder.{
  new_recorder, count_of, snapshot, Record, request, response, block, proxy_error, record_all,
}
use netgoat.Metrics.Errors.{errors_bound}
use netgoat.Metrics.Counts.{answered, answered_with, turned_away, record_all-counts}
use netgoat.Metrics.Writer.{
  Call, write_header, write, status_sent, body_sent, wrap_response_writer, apply, apply_all,
}

abbrev calls : List (ℕ × Record)
calls =
    (1, request)
    ∷ (2, block (codes "rate limit"))
    ∷ (3, response 429 (pos 12) (pos 20))
    ∷ (4, proxy_error (some (codes "connection refused")))
    ∷ []

errors_bound_example :
    (length (record_all calls new_recorder).errors ≤ 130)
    × (length (snapshot (record_all calls new_recorder)).recent_errors ≤ 8)
errors_bound_example = errors_bound calls

record_all-counts_example :
    ((record_all calls new_recorder).responses ≡ answered calls % 2 ^ 64)
    × (count_of 429 (record_all calls new_recorder).statuses ≡ answered_with 429 calls % 2 ^ 64)
    × (count_of (codes "rate limit") (record_all calls new_recorder).blocks
        ≡ turned_away (codes "rate limit") calls % 2 ^ 64)
record_all-counts_example = record_all-counts calls 429 (codes "rate limit")

-- Early hints, a status that is not final, and then the answer: its status does not get through.
abbrev early_hints : List Call
early_hints = write_header 103 ∷ write_header 404 ∷ write (codes "none") 4 ∷ []

early_hints_sent :
    (apply_all early_hints wrap_response_writer).sent
    ≡ status_sent 103 ∷ body_sent (codes "none") ∷ []
unfolding apply_all apply
early_hints_sent = refl

not_zero : (n : ℕ) → write_header (suc n) ≢ write_header 0
not_zero n e = cc

no_write : (b : Bytes) (n : ℕ) → write b n ≢ write_header 0
no_write b n e = cc

-- ===== src/Metrics/Recorder.antt =====
-- `Recorder` of internal/metrics/metrics.go. The counters are 64 bits wide and wrap around; a call
-- that notes an error takes the time that it reads.
use netgoat.Prelude.{
  ℕ, ◌+◌, ◌-◌, ◌%◌, ◌^◌, Bool, true, false, not, ◌&&◌, Option, none, some, List, [], ◌∷◌, ◌++◌,
  if◌then◌else◌, ◌==◌, Eq, nat_eq, ltb, leb, length, take, ℤ, pos_part,
}
use netgoat.Std.Dict.{Dict, lookup, insert}
use netgoat.Std.Text.{Bytes, bytes_eq, codes}
use netgoat.Std.Sort.{sort_stable}
use netgoat.Std.Words.{fields, join, itoa}

abbrev pub max_tracked_errors : ℕ
max_tracked_errors = 128

pub record ErrorInfo : Type 0 where
  pub kind : Bytes
  pub message : Bytes
  pub count : ℕ
  pub last_seen : ℕ

pub record Recorder : Type 0 where
  pub requests : ℕ
  pub responses : ℕ
  pub blocked : ℕ
  pub cache_hits : ℕ
  pub proxy_errors : ℕ
  pub bytes_written : ℕ
  pub latency_nanos : ℕ
  pub statuses : Dict ℕ ℕ
  pub blocks : Dict Bytes ℕ
  pub errors : Dict Bytes ErrorInfo

abbrev pub new_recorder : Recorder
new_recorder = record {
  requests = 0;
  responses = 0;
  blocked = 0;
  cache_hits = 0;
  proxy_errors = 0;
  bytes_written = 0;
  latency_nanos = 0;
  statuses = [];
  blocks = [];
  errors = [];
}

-- `Add` of an `atomic.Uint64`
unfoldable pub add_uint64 : ℕ → ℕ → ℕ
add_uint64 n m = (n + m) % 2 ^ 64

unfoldable pub count_of {ℓ} : {K : Type ℓ} ⦃e : Eq K⦄ → K → Dict K ℕ → ℕ
count_of k d = elim (lookup k d) [ none ↦ 0 | some n ↦ n ]

-- `d[k]++`
unfoldable pub increment {ℓ} : {K : Type ℓ} ⦃e : Eq K⦄ → K → Dict K ℕ → Dict K ℕ
increment k d = insert k (add_uint64 (count_of k d) 1) d

unfoldable pub compact : Bytes → ℕ → Bytes
compact s max =
    let t = join (codes " ") (fields s) in
    if leb (length t) max then t else take (max - 1) t ++ codes "..."

-- The entry of a key is made if it is not there, and counts one more.
unfoldable pub note : ℕ → Bytes → Bytes → Bytes → Dict Bytes ErrorInfo → Dict Bytes ErrorInfo
note now key kind message errors = elim (lookup key errors) [
  | none ↦ insert key (record { kind = kind; message = message; count = 1; last_seen = now }) errors
  | some info ↦ insert key (record info { count = add_uint64 info.count 1; last_seen = now }) errors
]

unfoldable pub has_key : Bytes → Dict Bytes ErrorInfo → Bool
has_key key errors = elim (lookup key errors) [ none ↦ false | some _ ↦ true ]

unfoldable pub error_text : Bytes → Bytes
error_text message = if message == [] then codes "unknown error" else message

unfoldable pub record_error_locked : ℕ → Bytes → Bytes → Dict Bytes ErrorInfo → Dict Bytes ErrorInfo
record_error_locked now kind message errors =
    let text = compact (error_text message) 180 in
    let key = kind ++ codes ":" ++ text in
    if not (has_key key errors) && leb max_tracked_errors (length errors)
    then note now (kind ++ codes ":other") kind (codes "other errors") errors
    else note now key kind text errors

unfoldable pub record_request : Recorder → Recorder
record_request r = record r { requests = add_uint64 r.requests 1 }

unfoldable pub status_of : ℕ → ℕ
status_of status = if status == 0 then 200 else status

unfoldable pub record_response : ℕ → ℕ → ℤ → ℤ → Recorder → Recorder
record_response now status bytes duration r = record r {
  responses = add_uint64 r.responses 1;
  bytes_written = add_uint64 r.bytes_written (pos_part bytes);
  latency_nanos = add_uint64 r.latency_nanos (pos_part duration);
  statuses = increment (status_of status) r.statuses;
  errors =
      if leb 400 (status_of status)
      then record_error_locked now (codes "http") (itoa (status_of status)) r.errors
      else r.errors;
}

unfoldable pub block_reason : Bytes → Bytes
block_reason reason = if reason == [] then codes "blocked" else reason

unfoldable pub record_blocked : Bytes → Recorder → Recorder
record_blocked reason r = record r {
  blocked = add_uint64 r.blocked 1;
  blocks = increment (block_reason reason) r.blocks;
}

unfoldable pub record_cache_hit : Recorder → Recorder
record_cache_hit r = record r { cache_hits = add_uint64 r.cache_hits 1 }

unfoldable pub proxy_message : Option Bytes → Bytes
proxy_message none = codes "upstream proxy failed"
proxy_message (some message) = message

unfoldable pub record_proxy_error : ℕ → Option Bytes → Recorder → Recorder
record_proxy_error now err r = record r {
  proxy_errors = add_uint64 r.proxy_errors 1;
  errors = record_error_locked now (codes "proxy") (proxy_message err) r.errors;
}

-- The calls that record something.
pub data Record : Type 0 where
  request : Record
  response : ℕ → ℤ → ℤ → Record
  block : Bytes → Record
  cache_hit : Record
  proxy_error : Option Bytes → Record

unfoldable pub recorded : ℕ → Record → Recorder → Recorder
recorded now request r = record_request r
recorded now (response status bytes duration) r = record_response now status bytes duration r
recorded now (block reason) r = record_blocked reason r
recorded now cache_hit r = record_cache_hit r
recorded now (proxy_error err) r = record_proxy_error now err r

unfoldable pub record_all : List (ℕ × Record) → Recorder → Recorder
record_all [] r = r
record_all ((now, c) ∷ calls) r = record_all calls (recorded now c r)

pub record Snapshot : Type 0 where
  pub requests : ℕ
  pub responses : ℕ
  pub blocked : ℕ
  pub cache_hits : ℕ
  pub proxy_errors : ℕ
  pub bytes_written : ℕ
  pub status_codes : Dict Bytes ℕ
  pub block_reasons : Dict Bytes ℕ
  pub error_status_codes : Dict Bytes ℕ
  pub recent_errors : List ErrorInfo

unfoldable pub status_texts : Dict ℕ ℕ → Dict Bytes ℕ
status_texts [] = []
status_texts ((code, count) ∷ statuses) = insert (itoa code) count (status_texts statuses)

unfoldable pub infos : Dict Bytes ErrorInfo → List ErrorInfo
infos [] = []
infos ((_, info) ∷ errors) = info ∷ infos errors

unfoldable pub error_statuses : List ErrorInfo → Dict Bytes ℕ
error_statuses [] = []
error_statuses (info ∷ rest) =
    let sums = error_statuses rest in
    if info.kind == codes "http"
    then insert info.message (add_uint64 (count_of info.message sums) info.count) sums
    else sums

-- The newest errors come first; `sort.Slice` may order those of one time in another way.
unfoldable pub newest : Dict Bytes ErrorInfo → List ErrorInfo
newest errors =
    let all = sort_stable (λ a b. ltb b.last_seen a.last_seen) (infos errors) in
    if ltb 8 (length all) then take 8 all else all

-- The average latency, a quotient of floating point numbers, and the time since the start are left
-- out.
unfoldable pub snapshot : Recorder → Snapshot
snapshot r = record {
  requests = r.requests;
  responses = r.responses;
  blocked = r.blocked;
  cache_hits = r.cache_hits;
  proxy_errors = r.proxy_errors;
  bytes_written = r.bytes_written;
  status_codes = status_texts r.statuses;
  block_reasons = r.blocks;
  error_status_codes = error_statuses (infos r.errors);
  recent_errors = newest r.errors;
}

-- ===== src/Metrics/Errors.antt =====
-- How many errors the recorder of internal/metrics/metrics.go tracks.
use netgoat.Prelude.{
  ℕ, ◌+◌, ◌≤◌, ◌≡◌, refl, true, Bool-cases, inl, inr, Option-cases, List, [], ◌∷◌, ◌++◌,
  if◌then◌else◌, take, ltb, zero, suc, ◌⊎◌, ==_refl, ◌==◌, leb, length, arith,
}
use netgoat.Std.Dict.{Dict, lookup, insert, lookup-insert, length-insert_present, length-insert-le}
use netgoat.Std.Text.{Bytes, bytes_eq, codes}
use netgoat.Std.Sort.{sort_stable}
use netgoat.Metrics.Recorder.{
  max_tracked_errors, ErrorInfo, Recorder, new_recorder, compact, note, has_key, error_text,
  record_error_locked, record_request, record_response, record_blocked, record_cache_hit,
  record_proxy_error, Record, request, response, block, cache_hit, proxy_error, status_of, infos,
  newest, snapshot, recorded, record_all,
}

abbrev other : Bytes → Bytes
other kind = kind ++ codes ":other"

-- The keys that are made when the table is full.
abbrev others : Dict Bytes ErrorInfo → ℕ
others errors =
    (if has_key (other (codes "http")) errors then 1 else 0)
    + (if has_key (other (codes "proxy")) errors then 1 else 0)

abbrev IsSmall : Dict Bytes ErrorInfo → Type 0
IsSmall errors = length errors ≤ max_tracked_errors + others errors

has_key-insert :
    (key k : Bytes) (info : ErrorInfo) (errors : Dict Bytes ErrorInfo)
    → has_key k (insert key info errors) ≡ (if key == k then true else has_key k errors)
unfolding has_key
has_key-insert key k info errors = ground (arith, lookup-insert key k info errors)

has_key-note :
    (now : ℕ) (key kind message k : Bytes) (errors : Dict Bytes ErrorInfo)
    → has_key k (note now key kind message errors) ≡ (if key == k then true else has_key k errors)
unfolding note
has_key-note now key kind message k errors = elim (Option-cases (lookup key errors)) [
  | inl new ↦ rw (new, note) (has_key-insert key k _ errors)
  | inr (info, known) ↦ rw (known, note) (has_key-insert key k _ errors)
]

length-note :
    (now : ℕ) (key kind message : Bytes) (errors : Dict Bytes ErrorInfo)
    → length (note now key kind message errors)
      ≤ length errors + (if has_key key errors then 0 else 1)
unfolding has_key note
length-note now key kind message errors = elim (Option-cases (lookup key errors)) [
  | inl new ↦ rw (new, note) (rw (new, has_key) (length-insert-le key _ errors))
  | inr (info, known) ↦
      rw (known, note)
        (rw (known, has_key) (omega (arith, length-insert_present key _ info errors known)))
]

note-IsSmall :
    (now : ℕ) (key kind message : Bytes) (errors : Dict Bytes ErrorInfo)
    → (has_key key errors ≡ true) ⊎ (length errors + 1 ≤ max_tracked_errors)
    → IsSmall errors
    → IsSmall (note now key kind message errors)
note-IsSmall now key kind message errors room small = ground (
  arith,
  room,
  length-note now key kind message errors,
  has_key-note now key kind message (other (codes "http")) errors,
  has_key-note now key kind message (other (codes "proxy")) errors,
)

-- The two kinds of errors that are recorded.
abbrev IsKind : Bytes → Type 0
IsKind kind = (kind ≡ codes "http") ⊎ (kind ≡ codes "proxy")

note-other-IsSmall :
    (now : ℕ) (kind message : Bytes) (errors : Dict Bytes ErrorInfo)
    → IsKind kind
    → IsSmall errors
    → IsSmall (note now (other kind) kind message errors)
note-other-IsSmall now kind message errors (inl http) small = rw http (
    ground (
      arith,
      length-note now (other (codes "http")) (codes "http") message errors,
      ==_refl (other (codes "http")),
      has_key-note now (other (codes "http")) (codes "http") message (other (codes "http")) errors,
      has_key-note now (other (codes "http")) (codes "http") message (other (codes "proxy")) errors,
    ))
note-other-IsSmall now kind message errors (inr proxy) small = rw proxy (
    ground (
      arith,
      length-note now (other (codes "proxy")) (codes "proxy") message errors,
      ==_refl (other (codes "proxy")),
      has_key-note now (other (codes "proxy")) (codes "proxy") message (other (codes "http"))
          errors,
      has_key-note now (other (codes "proxy")) (codes "proxy") message (other (codes "proxy"))
          errors,
    ))

record_error-IsSmall :
    (now : ℕ) (kind message : Bytes) (errors : Dict Bytes ErrorInfo)
    → IsKind kind
    → IsSmall errors
    → IsSmall (record_error_locked now kind message errors)
unfolding record_error_locked
record_error-IsSmall now kind message errors known small =
    let text = compact (error_text message) 180 in
    let key = kind ++ codes ":" ++ text in
    elim (Bool-cases (has_key key errors)) [
      | inl old ↦
          rw (old, record_error_locked) (note-IsSmall now key kind text errors (inl old) small)
      | inr new ↦ elim (Bool-cases (leb max_tracked_errors (length errors))) [
        | inl full ↦
            rw (new, full, record_error_locked)
              (note-other-IsSmall now kind (codes "other errors") errors known small)
        | inr room ↦
            rw (new, room, record_error_locked)
              (note-IsSmall now key kind text errors (inr (ground arith)) small)
      ]
    ]

recorded-IsSmall :
    (now : ℕ) (c : Record) (r : Recorder) → IsSmall r.errors → IsSmall (recorded now c r).errors
unfolding recorded record_request record_response record_blocked record_cache_hit record_proxy_error
recorded-IsSmall now request r small = small
recorded-IsSmall now (response status bytes duration) r small =
    elim (Bool-cases (leb 400 (status_of status))) [
      | inl failed ↦ rw failed (record_error-IsSmall now (codes "http") _ r.errors (inl refl) small)
      | inr fine ↦ rw fine small
    ]
recorded-IsSmall now (block reason) r small = small
recorded-IsSmall now cache_hit r small = small
recorded-IsSmall now (proxy_error err) r small =
    record_error-IsSmall now (codes "proxy") _ r.errors (inr refl) small

record_all-IsSmall :
    (calls : List (ℕ × Record)) (r : Recorder)
    → IsSmall r.errors
    → IsSmall (record_all calls r).errors
unfolding record_all
record_all-IsSmall [] r small = small
record_all-IsSmall ((now, c) ∷ calls) r small =
    record_all-IsSmall calls (recorded now c r) (recorded-IsSmall now c r small)

length-take : {A : Type 0} (n : ℕ) (l : List A) → length (take n l) ≤ n
length-take zero l = omega arith
length-take (suc n) [] = omega arith
length-take (suc n) (x ∷ l) = omega (arith, length-take n l)

length-newest : (errors : Dict Bytes ErrorInfo) → length (newest errors) ≤ 8
unfolding newest
length-newest errors =
    ground (arith, length-take 8 (sort_stable (λ a b. ltb b.last_seen a.last_seen) (infos errors)))

-- Whatever is recorded, at most 130 errors are tracked, the 128 that are allowed, and one more of
-- each kind for those that found the table full; and a snapshot lists at most 8 of them.
pub errors_bound :
    (calls : List (ℕ × Record))
    → let r = record_all calls new_recorder in
      (length r.errors ≤ 130) × (length (snapshot r).recent_errors ≤ 8)
unfolding snapshot
errors_bound calls = (
  ground (arith, record_all-IsSmall calls new_recorder (ground arith)),
  length-newest (record_all calls new_recorder).errors,
)

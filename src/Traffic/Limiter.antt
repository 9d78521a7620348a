-- ===== src/Traffic/Limiter.antt =====
-- `RateLimiter` of internal/traffic/limiter.go: token buckets by key, at most `max_buckets` of them,
-- with a list of the keys by recency. The source counts tokens in floating point; here a token is
-- 60 * 10 ^ 9 parts, so that a rate of n requests a minute adds n parts a nanosecond and no rounding
-- is needed.
use netgoat.Prelude.{
  ℕ, ◌+◌, ◌-◌, ◌*◌, ◌^◌, Bool, true, false, ◌||◌, Option, none, some, [], ◌∷◌, if◌then◌else◌, ltb,
  nat_beq, length, ℤ, or_default,
}
use netgoat.Std.Dict.{Dict, lookup, insert, delete}
use netgoat.Std.Text.{Bytes, bytes_eq, codes}
use netgoat.Std.Linked.{Linked, empty, back, push_front, remove, move_to_front}

abbrev pub token : ℕ
token = 60 * 10 ^ 9

pub record RateBucket : Type 0 where
  pub tokens : ℕ
  pub last : ℕ
  pub rate_element : ℕ

pub record RateLimiter : Type 0 where
  pub rate : ℕ
  pub burst : ℕ
  pub buckets : Dict Bytes RateBucket
  pub recency : Linked Bytes
  pub max_buckets : ℕ
  pub ttl : ℕ
  pub last_prune : ℕ

abbrev pub minute : ℕ
minute = 60 * 10 ^ 9

unfoldable pub new_rate_limiter : ℤ → ℤ → RateLimiter
new_rate_limiter requests_per_minute burst =
    let per_minute = or_default requests_per_minute 60 in
    record {
      rate = per_minute;
      burst = or_default burst per_minute * token;
      buckets = [];
      recency = empty;
      max_buckets = 10000;
      ttl = 10 * minute;
      last_prune = 0;
    }

unfoldable pub remove_bucket : Bytes → Option RateBucket → RateLimiter → RateLimiter
remove_bucket key none l = record l { buckets = delete key l.buckets }
remove_bucket key (some b) l = record l {
  buckets = delete key l.buckets;
  recency = remove b.rate_element l.recency;
}

unfoldable pub prune_one : ℕ → Bytes → RateBucket → RateLimiter → RateLimiter
prune_one now key b l = if ltb l.ttl (now - b.last) then remove_bucket key (some b) l else l

unfoldable pub prune_loop : ℕ → Dict Bytes RateBucket → RateLimiter → RateLimiter
prune_loop now [] l = l
prune_loop now ((key, b) ∷ rest) l = prune_loop now rest (prune_one now key b l)

unfoldable pub prune_locked : ℕ → RateLimiter → RateLimiter
prune_locked now l =
    if nat_beq l.ttl 0 || ltb (now - l.last_prune) minute
    then l
    else record (prune_loop now l.buckets l) { last_prune = now }

unfoldable pub remove_oldest : RateLimiter → RateLimiter
remove_oldest l = elim (back l.recency) [
  | none ↦ l
  | some (_, key) ↦ remove_bucket key (lookup key l.buckets) l
]

unfoldable pub ensure_capacity_locked : ℕ → RateLimiter → RateLimiter
ensure_capacity_locked now l =
    if nat_beq l.max_buckets 0 || ltb (length l.buckets) l.max_buckets
    then l
    else record (remove_oldest l) { last_prune = now }

-- The bucket of a key that is present: it is filled up, and a token is taken if it has one.
unfoldable pub refill : ℕ → ℕ → ℕ → RateBucket → RateBucket
refill rate burst now b =
    if ltb b.last now
    then (let tokens = b.tokens + (now - b.last) * rate in
        record b { tokens = if ltb burst tokens then burst else tokens; last = now })
    else b

unfoldable pub take_token : RateBucket → RateBucket × Bool
take_token b =
    if ltb b.tokens token then (b, false) else (record b { tokens = b.tokens - token }, true)

unfoldable pub admit_known : Bytes → ℕ → RateBucket → RateLimiter → RateLimiter × Bool
admit_known key now b l =
    let (b', allowed) = take_token (refill l.rate l.burst now b) in
    (
      record l {
        recency = move_to_front b.rate_element l.recency;
        buckets = insert key b' l.buckets;
      },
      allowed,
    )

unfoldable pub add_bucket : Bytes → ℕ → RateLimiter → RateLimiter
add_bucket key now l = record l {
  recency = push_front key l.recency;
  buckets =
      insert key (record { tokens = l.burst - token; last = now; rate_element = l.recency.next })
        l.buckets;
}

unfoldable pub admit_key : Bytes → ℕ → RateLimiter → RateLimiter × Bool
admit_key key now l = elim (lookup key l.buckets) [
  | none ↦ (add_bucket key now (ensure_capacity_locked now l), true)
  | some b ↦ admit_known key now b l
]

-- An empty key is the key of all clients.
unfoldable pub bucket_key : Bytes → Bytes
bucket_key key = if ltb 0 (length key) then key else codes "global"

unfoldable pub allow_at : Bytes → ℕ → RateLimiter → RateLimiter × Bool
allow_at key now l = admit_key (bucket_key key) now (prune_locked now l)

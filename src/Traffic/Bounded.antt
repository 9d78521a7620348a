-- ===== src/Traffic/Bounded.antt =====
-- The table of buckets of `RateLimiter` of internal/traffic/limiter.go stays within its bound, whatever
-- requests come.
use netgoat.Prelude.{
  ℕ, ◌-◌, ◌≤◌, ◌<◌, ◌≡◌, refl, ap, ◌∙◌, Bool, true, ◌||◌, Option, none, some, List, [], ◌∷◌, ltb,
  nat_beq, length, arith, Bool-cases, inl, inr, nat_eq, ℤ,
}
use netgoat.Std.Dict.{lookup, lookup-insert, lookup-delete, length-insert-le, length-insert_present}
use netgoat.Std.Keys.{IsKeyed, IsKeyed-insert}
use netgoat.Std.Linked.{back}
use netgoat.Std.Index.{empty-IsIndexed, push_front-IsIndexed, move_to_front-IsIndexed}
use netgoat.Std.Text.{Bytes, bytes_eq, bytes_beq_iff}
use netgoat.Traffic.Limiter.{
  token, RateBucket, RateLimiter, new_rate_limiter, remove_bucket, prune_locked, remove_oldest,
  ensure_capacity_locked, refill, take_token, admit_known, add_bucket, admit_key, bucket_key,
  allow_at,
}
use netgoat.Traffic.Table.{
  elements, element_of, lookup-elements, elements-insert, self, IsInStep, Keeps, prune_locked_lem,
  remove_oldest_lem,
}

-- The table is in step and within its bound.
unfoldable pub IsBounded : RateLimiter → Type 0
IsBounded l = IsInStep l × (length l.buckets ≤ l.max_buckets) × (0 < l.max_buckets)

ensure_capacity_lem :
    (now : ℕ) (l : RateLimiter)
    → IsBounded l
    → Keeps l (ensure_capacity_locked now l)
      × (length (ensure_capacity_locked now l).buckets < l.max_buckets)
unfolding ensure_capacity_locked Keeps IsBounded IsInStep
ensure_capacity_lem now l (v, small, some_room) =
    elim (Bool-cases (nat_beq l.max_buckets 0 || ltb (length l.buckets) l.max_buckets)) [
      | inl e ↦ rw e ((v, omega arith, refl), ground (arith, e, some_room))
      | inr e ↦
          let full : 0 < length l.buckets = ground (arith, e, some_room) in
          let ((v', few, limit), fewer) = remove_oldest_lem l v full in
          rw e ((v', few, limit), omega (arith, fewer, small))
    ]

add_bucket-IsInStep :
    (key : Bytes) (now : ℕ) (l : RateLimiter)
    → lookup key l.buckets ≡ none
    → IsInStep l
    → IsInStep (add_bucket key now l)
unfolding add_bucket IsInStep element_of
add_bucket-IsInStep key now l gone (v, keyed) =
    let b : RateBucket = record {
      tokens = l.burst - token;
      last = now;
      rate_element = l.recency.next;
    } in
    let miss : lookup key (elements l.buckets) ≡ none =
      lookup-elements key l.buckets ∙ ap element_of gone in
    (
      rw (elements-insert key b l.buckets) (push_front-IsIndexed self v key miss),
      IsKeyed-insert key b l.buckets keyed,
    )

remove_bucket-none :
    (k key : Bytes) (o : Option RateBucket) (l : RateLimiter)
    → lookup k l.buckets ≡ none
    → lookup k (remove_bucket key o l).buckets ≡ none
unfolding remove_bucket
remove_bucket-none k key none l gone = ground (arith, lookup-delete key k l.buckets, gone)
remove_bucket-none k key (some b) l gone = ground (arith, lookup-delete key k l.buckets, gone)

ensure_capacity_none :
    (k : Bytes) (now : ℕ) (l : RateLimiter)
    → lookup k l.buckets ≡ none
    → lookup k (ensure_capacity_locked now l).buckets ≡ none
unfolding ensure_capacity_locked remove_oldest
ensure_capacity_none k now l gone =
    elim (Bool-cases (nat_beq l.max_buckets 0 || ltb (length l.buckets) l.max_buckets)) [
      | inl e ↦ rw e gone
      | inr e ↦ rw e (go (back l.recency))
    ]
  where
    go :
        (o : Option (ℕ × Bytes))
        → lookup k
            (elim o as (λ _. RateLimiter) [
              | none ↦ l
              | some (_, key) ↦ remove_bucket key (lookup key l.buckets) l
            ]).buckets
          ≡ none
    go none = gone
    go (some (h, key)) = remove_bucket-none k key (lookup key l.buckets) l gone

refill_element :
    (rate burst now : ℕ) (b : RateBucket)
    → (take_token (refill rate burst now b)).0.rate_element ≡ b.rate_element
unfolding refill take_token
refill_element rate burst now b = ground arith

admit_known-IsInStep :
    (key : Bytes) (now : ℕ) (b : RateBucket) (l : RateLimiter)
    → lookup key l.buckets ≡ some b
    → IsInStep l
    → IsInStep (admit_known key now b l).0
unfolding admit_known IsInStep element_of
admit_known-IsInStep key now b l at (v, keyed) =
    let b' = (take_token (refill l.rate l.burst now b)).0 in
    let same = refill_element l.rate l.burst now b in
    let hit : lookup key (elements l.buckets) ≡ some b.rate_element =
      lookup-elements key l.buckets ∙ ap element_of at in
    let moved = move_to_front-IsIndexed self v b.rate_element in
    (
      rw (elements-insert key b' l.buckets, same)
          (record {
            position = λ k. ground (
              arith,
              lookup-insert key k b.rate_element (elements l.buckets),
              moved.position k,
              hit,
              bytes_beq_iff key k,
            );
            distinct = moved.distinct;
            below = moved.below;
          }),
      IsKeyed-insert key b' l.buckets keyed,
    )

add_bucket-IsBounded :
    (key : Bytes) (now : ℕ) (l : RateLimiter)
    → lookup key l.buckets ≡ none
    → IsInStep l
    → length l.buckets < l.max_buckets
    → IsBounded (add_bucket key now l)
unfolding IsBounded
add_bucket-IsBounded key now l gone v room =
    let longer =
      length-insert-le key
        (record { tokens = l.burst - token; last = now; rate_element = l.recency.next })
        l.buckets in
    (
      add_bucket-IsInStep key now l gone v,
      unfold add_bucket in omega (arith, longer, room),
      unfold add_bucket in omega (arith, room),
    )

admit_known-IsBounded :
    (key : Bytes) (now : ℕ) (b : RateBucket) (l : RateLimiter)
    → lookup key l.buckets ≡ some b
    → IsBounded l
    → IsBounded (admit_known key now b l).0
unfolding IsBounded
admit_known-IsBounded key now b l at (v, small, some_room) =
    let b' = (take_token (refill l.rate l.burst now b)).0 in
    let same = length-insert_present key b' b l.buckets at in
    (
      admit_known-IsInStep key now b l at v,
      unfold admit_known in omega (arith, same, small),
      unfold admit_known in some_room,
    )

admit_key-IsBounded :
    (key : Bytes) (now : ℕ) (l : RateLimiter) → IsBounded l → IsBounded (admit_key key now l).0
unfolding admit_key Keeps
admit_key-IsBounded key now l v = go (lookup key l.buckets) refl
  where
    go :
        (o : Option RateBucket)
        → lookup key l.buckets ≡ o
        → IsBounded
            (elim o as (λ _. RateLimiter × Bool) [
              | none ↦ (add_bucket key now (ensure_capacity_locked now l), true)
              | some b ↦ admit_known key now b l
            ]).0
    go none gone =
        let ((v', few, limit), room) = ensure_capacity_lem now l v in
        add_bucket-IsBounded key now (ensure_capacity_locked now l)
          (ensure_capacity_none key now l gone) v' (omega (arith, limit, room))
    go (some b) at = admit_known-IsBounded key now b l at v

prune_locked-IsBounded : (now : ℕ) (l : RateLimiter) → IsBounded l → IsBounded (prune_locked now l)
unfolding IsBounded Keeps
prune_locked-IsBounded now l (v, small, some_room) =
    let (v', few, limit) = prune_locked_lem now l v in
    (v', omega (arith, few, limit, small), omega (arith, limit, some_room))

allow_at-IsBounded :
    (key : Bytes) (now : ℕ) (l : RateLimiter) → IsBounded l → IsBounded (allow_at key now l).0
unfolding allow_at
allow_at-IsBounded key now l v =
    admit_key-IsBounded (bucket_key key) now (prune_locked now l) (prune_locked-IsBounded now l v)

-- A sequence of requests, with their keys and times.
unfoldable pub allow_all : List (Bytes × ℕ) → RateLimiter → RateLimiter
allow_all [] l = l
allow_all ((key, now) ∷ rest) l = allow_all rest (allow_at key now l).0

allow_all_lem : (es : List (Bytes × ℕ)) (l : RateLimiter) → IsBounded l → IsBounded (allow_all es l)
unfolding allow_all
allow_all_lem [] l v = v
allow_all_lem ((key, now) ∷ rest) l v =
    allow_all_lem rest (allow_at key now l).0 (allow_at-IsBounded key now l v)

-- From a new limiter, whatever keys ask at whatever times: there are at most `max_buckets` buckets,
-- and the list of keys holds exactly the keys of the table, each once, at the element that its
-- bucket points to.
pub allow_all-IsBounded :
    (requests_per_minute burst : ℤ) (es : List (Bytes × ℕ))
    → IsBounded (allow_all es (new_rate_limiter requests_per_minute burst))
unfolding new_rate_limiter IsBounded IsInStep elements IsKeyed
allow_all-IsBounded requests_per_minute burst es =
    allow_all_lem es (new_rate_limiter requests_per_minute burst)
      ((empty-IsIndexed self, tt), omega arith, omega arith)

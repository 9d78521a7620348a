-- ===== src/Traffic/Table.antt =====
-- What takes buckets out of the table of `RateLimiter` of internal/traffic/limiter.go: the table and
-- the list of keys stay in step.
use netgoat.Prelude.{
  ℕ, ◌-◌, ◌≤◌, ◌<◌, ◌≡◌, refl, sym, ap, ◌∙◌, ◌||◌, Option, none, some, [], ◌∷◌, if◌then◌else◌, ltb,
  nat_beq, length, arith, Bool-cases, Option-cases, inl, inr, ◌⊎◌, nat_eq, ◌≢◌, last?, last?_total,
}
use netgoat.Std.Dict.{Dict, lookup, insert, delete, length-delete-le, length-delete-lt}
use netgoat.Std.Keys.{IsKeyed, IsKeyed-delete, Agrees, Agrees-delete, Agrees-self}
use netgoat.Std.Linked.{Linked, back}
use netgoat.Std.Index.{IsIndexed, value_key, remove-IsIndexed}
use netgoat.Std.Index.View.{read_hit, back-value}
use netgoat.Std.Text.{Bytes, bytes_eq, bytes_beq_iff}
use netgoat.Traffic.Limiter.{
  minute, RateBucket, RateLimiter, remove_bucket, prune_one, prune_loop, prune_locked,
  remove_oldest,
}

-- The elements that the buckets hold.
unfoldable pub elements : Dict Bytes RateBucket → Dict Bytes ℕ
elements [] = []
elements ((key, b) ∷ d) = (key, b.rate_element) ∷ elements d

unfoldable pub element_of : Option RateBucket → Option ℕ
element_of none = none
element_of (some b) = some b.rate_element

pub lookup-elements :
    (k : Bytes) (d : Dict Bytes RateBucket) → lookup k (elements d) ≡ element_of (lookup k d)
unfolding elements lookup element_of
lookup-elements k [] = refl
lookup-elements k ((j, b) ∷ d) = ground (arith, lookup-elements k d)

pub elements-insert :
    (k : Bytes) (b : RateBucket) (d : Dict Bytes RateBucket)
    → elements (insert k b d) ≡ insert k b.rate_element (elements d)
unfolding elements insert
elements-insert k b [] = refl
elements-insert k b ((j, c) ∷ d) = ground (arith, elements-insert k b d)

elements-delete :
    (k : Bytes) (d : Dict Bytes RateBucket) → elements (delete k d) ≡ delete k (elements d)
unfolding elements delete
elements-delete k [] = refl
elements-delete k ((j, c) ∷ d) = ground (arith, elements-delete k d)

abbrev pub self : Bytes → Bytes
self k = k

-- The buckets and the list of keys are in step.
unfoldable pub IsInStep : RateLimiter → Type 0
IsInStep l = IsIndexed self (elements l.buckets) l.recency × IsKeyed l.buckets

remove_bucket-IsInStep :
    (key : Bytes) (b : RateBucket) (l : RateLimiter)
    → lookup key l.buckets ≡ some b
    → IsInStep l
    → IsInStep (remove_bucket key (some b) l)
unfolding IsInStep remove_bucket
remove_bucket-IsInStep key b l at (v, keyed) =
    let hit : lookup key (elements l.buckets) ≡ some b.rate_element =
      lookup-elements key l.buckets ∙ (unfold element_of in ap element_of at) in
    let (a, there, same) = read_hit self v key b.rate_element hit in
    (
      rw (elements-delete key l.buckets, ← same) (remove-IsIndexed self v b.rate_element a there),
      IsKeyed-delete key l.buckets keyed,
    )

-- What the removals keep: the limits, the number of buckets from growing, and the step.
unfoldable pub Keeps : RateLimiter → RateLimiter → Type 0
Keeps l l' = IsInStep l' × (length l'.buckets ≤ length l.buckets) × (l'.max_buckets ≡ l.max_buckets)

prune_one-cases :
    (now : ℕ) (key : Bytes) (b : RateBucket) (l : RateLimiter)
    → (prune_one now key b l ≡ remove_bucket key (some b) l) ⊎ (prune_one now key b l ≡ l)
unfolding prune_one
prune_one-cases now key b l = elim (Bool-cases (ltb l.ttl (now - b.last))) [
  | inl e ↦ inl (ap (λ x. if x then remove_bucket key (some b) l else l) e)
  | inr e ↦ inr (ap (λ x. if x then remove_bucket key (some b) l else l) e)
]

prune_one_lem :
    (now : ℕ) (key : Bytes) (b : RateBucket) (rest : Dict Bytes RateBucket) (l : RateLimiter)
    → lookup key rest ≡ none
    → lookup key l.buckets ≡ some b
    → Agrees l.buckets rest
    → IsInStep l
    → Keeps l (prune_one now key b l) × Agrees (prune_one now key b l).buckets rest
unfolding Keeps
prune_one_lem now key b rest l new at agrees v = elim (prune_one-cases now key b l) [
  | inl e ↦ rw e (
    (
      remove_bucket-IsInStep key b l at v,
      unfold remove_bucket in length-delete-le key l.buckets,
      unfold remove_bucket in refl,
    ),
    unfold remove_bucket in Agrees-delete key l.buckets rest new agrees,
  )
  | inr e ↦ rw e ((v, omega arith, refl), agrees)
]

prune_loop_lem :
    (now : ℕ) (rest : Dict Bytes RateBucket) (l : RateLimiter)
    → IsKeyed rest
    → Agrees l.buckets rest
    → IsInStep l
    → Keeps l (prune_loop now rest l)
unfolding prune_loop Keeps IsKeyed Agrees
prune_loop_lem now [] l keyed agrees v = (v, omega arith, refl)
prune_loop_lem now ((key, b) ∷ rest) l (new, keyed) (at, agrees) v =
    let ((v', few, limit), agrees') = prune_one_lem now key b rest l new at agrees v in
    let (v'', fewer, same) = prune_loop_lem now rest (prune_one now key b l) keyed agrees' v' in
    (v'', omega (arith, few, fewer), same ∙ limit)

pub prune_locked_lem : (now : ℕ) (l : RateLimiter) → IsInStep l → Keeps l (prune_locked now l)
unfolding prune_locked Keeps IsInStep
prune_locked_lem now l v = elim (Bool-cases (nat_beq l.ttl 0 || ltb (now - l.last_prune) minute)) [
  | inl e ↦ rw e (v, omega arith, refl)
  | inr e ↦ rw e (prune_loop_lem now l.buckets l v.1 (Agrees-self l.buckets v.1) v)
]

back_present :
    (d : Dict Bytes RateBucket) (r : Linked Bytes)
    → IsIndexed self (elements d) r
    → 0 < length d
    → back r ≢ none
unfolding elements lookup
back_present [] r v h e = absurd (omega arith)
back_present ((k, b) ∷ d) r v h e =
    let hit : lookup k (elements ((k, b) ∷ d)) ≡ some b.rate_element =
      ground (arith, bytes_beq_iff k k) in
    let (a, there, same) = read_hit self v k b.rate_element hit in
    value_back r.elems b.rate_element a there e
  where
    value_back : (l : Dict ℕ Bytes) (h : ℕ) (a : Bytes) → lookup h l ≡ some a → last? l ≢ none
    value_back [] h a at e = cc
    value_back (x ∷ l) h a at e = let (y, there) = last?_total x l in cc

pub remove_oldest_lem :
    (l : RateLimiter)
    → IsInStep l
    → 0 < length l.buckets
    → Keeps l (remove_oldest l) × (length (remove_oldest l).buckets < length l.buckets)
unfolding remove_oldest Keeps IsInStep element_of
remove_oldest_lem l v some_bucket = go (back l.recency) refl
  where
    after : Option (ℕ × Bytes) → RateLimiter
    after o = elim o [ none ↦ l | some (_, key) ↦ remove_bucket key (lookup key l.buckets) l ]

    oldest :
        (h : ℕ) (key : Bytes)
        → back l.recency ≡ some (h, key)
        → element_of (lookup key l.buckets) ≡ some h
    oldest h key e =
        let (found, _) = back-value self v.0 h key e in
        sym (lookup-elements key l.buckets) ∙ value_key self v.0 h key found

    go :
        (o : Option (ℕ × Bytes))
        → back l.recency ≡ o
        → Keeps l (after o) × (length (after o).buckets < length l.buckets)
    go none e = absurd (back_present l.buckets l.recency v.0 some_bucket e)
    go (some (h, key)) e = elim (Option-cases (lookup key l.buckets)) [
      | inl gone ↦ absurd (let p = oldest h key e in cc (p, ap element_of gone))
      | inr (b, at) ↦ rw at (
        (
          remove_bucket-IsInStep key b l at v,
          unfold remove_bucket in length-delete-le key l.buckets,
          unfold remove_bucket in refl,
        ),
        unfold remove_bucket in length-delete-lt key b l.buckets at,
      )
    ]

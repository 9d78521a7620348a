-- ===== src/Challenge/Run.antt =====
-- Any sequence of calls on the challenge store, each at the time it reads.
use netgoat.Prelude.{
  ◌>>=◌, ◌⊎◌, ℕ, ◌+◌, ◌≤◌, ◌≡◌, refl, Bool-cases, inl, inr, Option, none, some, Option-cases, List,
  [], ◌∷◌, ◌==◌, nat_eq, ltb, length, ℤ, arith,
}
use netgoat.Std.Dict.{lookup}
use netgoat.Std.Text.{Bytes, bytes_eq}
use netgoat.Std.Linked.{value}
use netgoat.Std.Table.{Table, find_entry, drop_excess}
use netgoat.Std.Table.Laws.{find_entry-some, drop_excess-IsKept, length-drop_excess}
use netgoat.Std.Table.Writes.{append_entry-IsKept}
use netgoat.Challenge.Suspicion.{ChallengeType}
use netgoat.Challenge.Answers.{Draw}
use netgoat.Challenge.Store.{
  Challenge, ChallengeEntry, Store, entry_id, challenge_id_length, max_answer_bytes, right_answer,
  verified_binding, new_store, cleanup_expired_locked, remove_challenge_locked, first_unused,
  new_entry, add_challenge, create, get, verify_entry, verify, is_verified,
}
use netgoat.Challenge.Valid.{
  from_start, IsValidFrom, IsValid, new_store-IsValid, later-IsValid, cleanup-IsValid, cleanup_live,
  remove_challenge-IsValid, record_failure-IsValid, mark_verified-IsValid, first_unused_absent,
}

abbrev pub open_room : Store → Table Bytes ChallengeEntry
open_room s = drop_excess entry_id s.max_challenges (length s.challenges.index + 1) s.challenges

map_some {ℓ κ} :
    {A : Type ℓ} {B : Type κ} (f : A → B) (o : Option A) (b : B)
    → (o >>= λ a. some (f a)) ≡ some b
    → (a : A) × (o ≡ some a) × (f a ≡ b)
map_some f none b p = cc
map_some f (some a) b p = (a, refl, cc)

pub get_state :
    (id : Bytes) (now : ℕ) (s : Store)
    → ((get id now s).1 ≡ s) ⊎ ((get id now s).1 ≡ cleanup_expired_locked now s)
unfolding get
get_state id now s = elim (Bool-cases (length id == challenge_id_length)) [
  | inr odd ↦ inl (rw (odd, get) refl)
  | inl even ↦ elim (Option-cases (find_entry entry_id id s.challenges)) [
    | inl miss ↦ inl (rw (even, miss, get) refl)
    | inr ((h, e), hit) ↦ elim (Bool-cases (ltb now e.challenge.expires_at)) [
      | inl live ↦ inl (rw (even, hit, live, get) refl)
      | inr old ↦
          let clean = (cleanup_expired_locked now s).challenges in
          elim (Option-cases (find_entry entry_id id clean)) [
            | inl gone ↦ inr (rw (even, hit, old, get) (rw gone refl))
            | inr ((h', e'), still) ↦ inr (rw (even, hit, old, get) (rw still refl))
          ]
    ]
  ]
]

module _ (answer binding : Bytes) (now h : ℕ) (e : ChallengeEntry) (s : Store) where
  pub verify_entry-IsValid :
      (lo : ℕ)
      → lo ≤ now + s.verification_ttl
      → value h s.challenges.order ≡ some e
      → IsValidFrom lo now s
      → IsValidFrom lo now (verify_entry answer binding now h e s).1
  unfolding verify_entry remove_challenge_locked
  verify_entry-IsValid lo low at v = elim (Bool-cases (ltb max_answer_bytes (length answer))) [
    | inl long ↦ rw (long, verify_entry) (record_failure-IsValid v h e at)
    | inr short ↦ elim (Bool-cases (right_answer e.challenge answer)) [
      | inl right ↦
          rw (short, right, verify_entry)
            (mark_verified-IsValid (remove_challenge-IsValid v h e at) binding low)
      | inr wrong ↦ rw (short, wrong, verify_entry) (record_failure-IsValid v h e at)
    ]
  ]

pub data Call : Type 0 where
  create_call : Bytes → Bytes → ℕ → ChallengeType → Draw → List Bytes → Call
  get_call : Bytes → Call
  verify_call : Bytes → Bytes → Bytes → Call
  is_verified_call : Bytes → Call

unfoldable pub run_end : ℕ → List (ℕ × Call) → ℕ
run_end now [] = now
run_end now ((delay, c) ∷ calls) = run_end (now + delay) calls

module _ (sum : Bytes → Bytes) where
  module _ (ip user_agent : Bytes) (suspicion : ℕ) (kind : ChallengeType) (draw : Draw) where
    pub add_challenge-IsValid :
        (now : ℕ) (s : Store) (id : Bytes)
        → IsValid now s
        → lookup id (open_room s).index ≡ none
        → IsValid now (add_challenge sum ip user_agent suspicion kind draw now (open_room s) s id).1
    unfolding new_entry add_challenge
    add_challenge-IsValid now s id v free = record {
      opened =
          append_entry-IsKept _ _ _
            (drop_excess-IsKept _ _ _ s.max_challenges _ s.challenges v.opened) _ free
            (length-drop_excess _ _ _ s.max_challenges _ s.challenges v.some_challenges v.opened
              (omega arith))
            (omega arith) (omega arith) v.some_tries;
      passed = v.passed;
      some_challenges = v.some_challenges;
      some_verified = v.some_verified;
      some_tries = v.some_tries;
      some_ttl = v.some_ttl;
    }

    pub create-some :
        (ids : List Bytes) (now : ℕ) (s : Store) (r : Challenge × Store)
        → create sum ip user_agent suspicion kind draw ids now s ≡ some r
        → (id : Bytes) × (first_unused ids (open_room (cleanup_expired_locked now s)) ≡ some id)
          × (add_challenge sum ip user_agent suspicion kind draw now
                (open_room (cleanup_expired_locked now s))
                (cleanup_expired_locked now s)
                id
              ≡ r)
    unfolding create
    create-some ids now s r p =
        map_some _ (first_unused ids (open_room (cleanup_expired_locked now s))) r p

    pub create-IsValid :
        (ids : List Bytes) (now : ℕ) (s : Store) (r : Challenge × Store)
        → IsValid now s
        → create sum ip user_agent suspicion kind draw ids now s ≡ some r
        → IsValid now r.1
    create-IsValid ids now s r v p =
        let (id, free, made) = create-some ids now s r p in
        rw made at (
          add_challenge-IsValid now (cleanup_expired_locked now s) id (cleanup-IsValid v now)
            (first_unused_absent ids _ id free))

  pub is_verified_state :
      (ip : Bytes) (now : ℕ) (s : Store)
      → ((is_verified sum ip now s).1 ≡ s)
        ⊎ ((is_verified sum ip now s).1 ≡ cleanup_expired_locked now s)
  unfolding is_verified
  is_verified_state ip now s =
      elim (Option-cases (find_entry verified_binding (sum ip) s.verified)) [
        | inl miss ↦ inl (rw (miss, is_verified) refl)
        | inr ((h, e), hit) ↦ elim (Bool-cases (ltb now e.expires_at)) [
          | inl live ↦ inl (rw (hit, live, is_verified) refl)
          | inr old ↦
              let clean = (cleanup_expired_locked now s).verified in
              elim (Option-cases (find_entry verified_binding (sum ip) clean)) [
                | inl gone ↦ inr (rw (hit, old, is_verified) (rw gone refl))
                | inr ((h', e'), still) ↦ inr (rw (hit, old, is_verified) (rw still refl))
              ]
        ]
      ]

  pub verify-IsValid :
      (id answer ip : Bytes) (now : ℕ) (s : Store)
      → IsValid now s
      → IsValidFrom (now + 1) now (verify sum id answer ip now s).1
  unfolding verify
  verify-IsValid id answer ip now s v =
      let clean = cleanup_live v now in
      let s' = cleanup_expired_locked now s in
      elim (Bool-cases (length id == challenge_id_length)) [
        | inr odd ↦ rw (odd, verify) clean
        | inl even ↦ elim (Option-cases (find_entry entry_id id s'.challenges)) [
          | inl miss ↦ rw (even, miss, verify) clean
          | inr ((h, e), hit) ↦ elim (Bool-cases (e.binding == sum ip)) [
            | inr other ↦ rw (even, hit, verify) (rw other clean)
            | inl same ↦
                let (_, at, _) = find_entry-some _ _ _ clean.opened id h e hit in
                rw (even, hit, verify)
                  (rw same (
                    verify_entry-IsValid answer (sum ip) now h e s' (now + 1)
                      (omega (arith, clean.some_ttl)) at clean))
          ]
        ]
      ]

  unfoldable pub call : ℕ → Call → Store → Store
  call now (create_call ip user_agent suspicion kind draw ids) s =
      elim (create sum ip user_agent suspicion kind draw ids now s) [ none ↦ s | some (c, s') ↦ s' ]
  call now (get_call id) s = (get id now s).1
  call now (verify_call id answer ip) s = (verify sum id answer ip now s).1
  call now (is_verified_call ip) s = (is_verified sum ip now s).1

  -- A call at the given time, and then those at the given delays after it.
  unfoldable pub run : ℕ → List (ℕ × Call) → Store → Store
  run now [] s = s
  run now ((delay, c) ∷ calls) s = run (now + delay) calls (call (now + delay) c s)

  kept_or_clean :
      (now : ℕ) (s t : Store)
      → IsValid now s
      → (t ≡ s) ⊎ (t ≡ cleanup_expired_locked now s)
      → IsValid now t
  kept_or_clean now s t v (inl same) = rw same v
  kept_or_clean now s t v (inr clean) = rw clean (cleanup-IsValid v now)

  pub call-IsValid : (now : ℕ) (c : Call) (s : Store) → IsValid now s → IsValid now (call now c s)
  unfolding call
  call-IsValid now (create_call ip user_agent suspicion kind draw ids) s v =
      elim (Option-cases (create sum ip user_agent suspicion kind draw ids now s)) [
        | inl nothing ↦ rw (nothing, call) v
        | inr (r, made) ↦
            rw (made, call) (create-IsValid ip user_agent suspicion kind draw ids now s r v made)
      ]
  call-IsValid now (get_call id) s v = kept_or_clean now s _ v (get_state id now s)
  call-IsValid now (verify_call id answer ip) s v =
      from_start (now + 1) now _ (verify-IsValid id answer ip now s v)
  call-IsValid now (is_verified_call ip) s v = kept_or_clean now s _ v (is_verified_state ip now s)

  pub run_from-IsValid :
      (calls : List (ℕ × Call)) (now : ℕ) (s : Store)
      → IsValid now s
      → IsValid (run_end now calls) (run now calls s)
  unfolding run run_end
  run_from-IsValid [] now s v = v
  run_from-IsValid ((delay, c) ∷ calls) now s v =
      run_from-IsValid calls (now + delay) _
        (call-IsValid (now + delay) c s (later-IsValid v (now + delay) (omega arith)))

  -- After any calls at times that do not fall, from a new store of any limits: both tables are
  -- indexed by their keys and within their limits, their entries stand in the order of expiry and
  -- expire no later than a time to live from the last call, and each open challenge has a try left.
  pub run-IsValid :
      (a b c d e : ℤ) (calls : List (ℕ × Call)) (now : ℕ)
      → IsValid (run_end now calls) (run now calls (new_store a b c d e))
  run-IsValid a b c d e calls now = run_from-IsValid calls now _ (new_store-IsValid a b c d e now)

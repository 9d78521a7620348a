-- ===== src/Challenge/Store.antt =====
-- `Store` of internal/challenge/challenge.go: the open challenges by their id and the clients that
-- have passed one by the digest of their address, each with the order of expiry. A call takes the
-- time that it reads; `sum` stands for `sha256.Sum256`.
use netgoat.Prelude.{
  ◌>>=◌, ℕ, ◌+◌, ◌*◌, ◌^◌, Bool, true, false, not, Option, none, some, List, [], ◌∷◌, if◌then◌else◌,
  ◌==◌, nat_eq, ltb, leb, length, ℤ, or_default,
}
use netgoat.Std.Dict.{lookup}
use netgoat.Std.Text.{Bytes, bytes_eq, trim_space, equal_fold}
use netgoat.Std.Linked.{set_value, move_to_back}
use netgoat.Std.Table.{
  Table, empty_table, find_entry, remove_at, append_entry, drop_expired, drop_excess,
}
use netgoat.Challenge.Suspicion.{ChallengeType, no_challenge, text, click, slider}
use netgoat.Challenge.Answers.{bounded_clone, Draw, generate_answer}

abbrev pub challenge_id_length : ℕ
challenge_id_length = 22

abbrev pub max_answer_bytes : ℕ
max_answer_bytes = 256

abbrev pub second : ℕ
second = 10 ^ 9

pub record Challenge : Type 0 where
  pub id : Bytes
  pub kind : ChallengeType
  pub answer : Bytes
  pub created_at : ℕ
  pub expires_at : ℕ
  pub ip : Bytes
  pub user_agent : Bytes
  pub suspicion : ℕ

pub record ChallengeEntry : Type 0 where
  pub challenge : Challenge
  pub binding : Bytes
  pub failed_attempts : ℕ

pub record VerifiedEntry : Type 0 where
  pub binding : Bytes
  pub expires_at : ℕ

pub record Store : Type 0 where
  pub challenges : Table Bytes ChallengeEntry
  pub verified : Table Bytes VerifiedEntry
  pub max_challenges : ℕ
  pub max_verified : ℕ
  pub max_failed_attempts : ℕ
  pub challenge_ttl : ℕ
  pub verification_ttl : ℕ

abbrev pub entry_id : ChallengeEntry → Bytes
entry_id e = e.challenge.id

abbrev pub entry_expires : ChallengeEntry → ℕ
entry_expires e = e.challenge.expires_at

abbrev pub verified_binding : VerifiedEntry → Bytes
verified_binding e = e.binding

abbrev pub verified_expires : VerifiedEntry → ℕ
verified_expires e = e.expires_at

unfoldable pub new_store :
    (max_challenges max_verified max_failed_attempts challenge_ttl verification_ttl : ℤ) → Store
new_store max_challenges max_verified max_failed_attempts challenge_ttl verification_ttl = record {
  challenges = empty_table;
  verified = empty_table;
  max_challenges = or_default max_challenges 4096;
  max_verified = or_default max_verified 4096;
  max_failed_attempts = or_default max_failed_attempts 5;
  challenge_ttl = or_default challenge_ttl (5 * 60 * second);
  verification_ttl = or_default verification_ttl (60 * 60 * second);
}

-- Both loops end, since each turn takes an entry out: the number of keys bounds the turns.
unfoldable pub cleanup_expired_locked : ℕ → Store → Store
cleanup_expired_locked now s = record s {
  challenges = drop_expired entry_id entry_expires now (length s.challenges.index + 1) s.challenges;
  verified =
      drop_expired verified_binding verified_expires now (length s.verified.index + 1) s.verified;
}

unfoldable pub remove_challenge_locked : ℕ → ChallengeEntry → Store → Store
remove_challenge_locked h e s = record s { challenges = remove_at entry_id h e s.challenges }

-- The first id that no challenge has: `Create` draws ids until it finds one.
unfoldable pub first_unused : List Bytes → Table Bytes ChallengeEntry → Option Bytes
first_unused [] t = none
first_unused (id ∷ ids) t = elim (lookup id t.index) [
  | none ↦ some id
  | some _ ↦ first_unused ids t
]

abbrev pub failed_again : ChallengeEntry → ChallengeEntry
failed_again e = record e { failed_attempts = e.failed_attempts + 1 }

unfoldable pub record_failure_locked : ℕ → ChallengeEntry → Store → Store
record_failure_locked h e s =
    let e' = failed_again e in
    let s' = record s {
      challenges = record s.challenges { order = set_value h e' s.challenges.order };
    } in
    if leb s.max_failed_attempts e'.failed_attempts then remove_challenge_locked h e' s' else s'

unfoldable pub mark_verified_locked : Bytes → ℕ → Store → Store
mark_verified_locked binding now s =
    let e : VerifiedEntry = record { binding = binding; expires_at = now + s.verification_ttl } in
    elim (find_entry verified_binding binding s.verified) [
      | some (h, _) ↦ record s {
        verified = record s.verified { order = set_value h e (move_to_back h s.verified.order) };
      }
      | none ↦ record s {
        verified =
            append_entry verified_binding e (
              drop_excess verified_binding s.max_verified (length s.verified.index + 1) s.verified);
      }
    ]

unfoldable pub right_answer : Challenge → Bytes → Bool
right_answer c answer = elim c.kind [
  | no_challenge ↦ false
  | text ↦ equal_fold (trim_space answer) (trim_space c.answer)
  | click ↦ answer == c.answer
  | slider ↦ answer == c.answer
]

unfoldable pub get : Bytes → ℕ → Store → Option Challenge × Store
get id now s =
    if not (length id == challenge_id_length)
    then (none, s)
    else elim (find_entry entry_id id s.challenges) [
      | none ↦ (none, s)
      | some (h, e) ↦
          if ltb now e.challenge.expires_at
          then (some e.challenge, s)
          else (let s' = cleanup_expired_locked now s in
              elim (find_entry entry_id id s'.challenges) [
                | none ↦ (none, s')
                | some (h', e') ↦ (some e'.challenge, s')
              ])
    ]

unfoldable pub verify_entry : Bytes → Bytes → ℕ → ℕ → ChallengeEntry → Store → Bool × Store
verify_entry answer binding now h e s =
    if ltb max_answer_bytes (length answer)
    then (false, record_failure_locked h e s)
    else if right_answer e.challenge answer
    then (true, mark_verified_locked binding now (remove_challenge_locked h e s))
    else (false, record_failure_locked h e s)

module _ (sum : Bytes → Bytes) where
  unfoldable pub new_entry :
      Bytes → Bytes → ℕ → ChallengeType → Draw → Bytes → ℕ → ℕ → ChallengeEntry
  new_entry ip user_agent suspicion kind draw id now ttl = record {
    challenge = record {
      id = id;
      kind = kind;
      answer = generate_answer kind draw;
      created_at = now;
      expires_at = now + ttl;
      ip = bounded_clone ip 256;
      user_agent = bounded_clone user_agent 512;
      suspicion = suspicion;
    };
    binding = sum ip;
    failed_attempts = 0;
  }

  -- What `Create` does once it has found an id.
  unfoldable pub add_challenge :
      Bytes
      → Bytes
      → ℕ
      → ChallengeType
      → Draw
      → ℕ
      → Table Bytes ChallengeEntry
      → Store
      → Bytes
      → Challenge × Store
  add_challenge ip user_agent suspicion kind draw now open_challenges s id =
      let e = new_entry ip user_agent suspicion kind draw id now s.challenge_ttl in
      (e.challenge, record s { challenges = append_entry entry_id e open_challenges })

  -- Nothing is returned only when the given ids are all in use.
  unfoldable pub create :
      Bytes → Bytes → ℕ → ChallengeType → Draw → List Bytes → ℕ → Store → Option (Challenge × Store)
  create ip user_agent suspicion kind draw ids now s =
      let s' = cleanup_expired_locked now s in
      let open_challenges =
        drop_excess entry_id s'.max_challenges (length s'.challenges.index + 1) s'.challenges in
      first_unused ids open_challenges >>= λ id.
      some (add_challenge ip user_agent suspicion kind draw now open_challenges s' id)

  unfoldable pub verify : Bytes → Bytes → Bytes → ℕ → Store → Bool × Store
  verify id answer ip now s =
      let s' = cleanup_expired_locked now s in
      if not (length id == challenge_id_length)
      then (false, s')
      else elim (find_entry entry_id id s'.challenges) [
        | none ↦ (false, s')
        | some (h, e) ↦
            if e.binding == sum ip then verify_entry answer (sum ip) now h e s' else (false, s')
      ]

  unfoldable pub is_verified : Bytes → ℕ → Store → Bool × Store
  is_verified ip now s = elim (find_entry verified_binding (sum ip) s.verified) [
    | none ↦ (false, s)
    | some (h, e) ↦
        if ltb now e.expires_at
        then (true, s)
        else (let s' = cleanup_expired_locked now s in
            elim (find_entry verified_binding (sum ip) s'.verified) [
              | none ↦ (false, s')
              | some (h', e') ↦ (ltb now e'.expires_at, s')
            ])
  ]

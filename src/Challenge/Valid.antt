-- ===== src/Challenge/Valid.antt =====
-- What the locked helpers of the challenge store keep.
use netgoat.Prelude.{
  ℕ, ◌+◌, ◌≤◌, ◌<◌, ◌≡◌, refl, sym, Bool-cases, inl, inr, none, some, Option-cases, List, [], ◌∷◌,
  nat_eq, leb, length, ℤ, or_default_pos, arith,
}
use netgoat.Std.Dict.{lookup}
use netgoat.Std.Text.{Bytes, bytes_eq}
use netgoat.Std.Index.{value_key}
use netgoat.Std.Linked.{value}
use netgoat.Std.Table.{Table, find_entry, drop_excess}
use netgoat.Std.Table.Laws.{
  IsKept, find_entry-some, remove_at-IsKept, drop_expired-IsKept, drop_expired_live,
  drop_excess-IsKept, length-drop_excess, IsKept-later, IsKept-lower, empty-IsKept,
  drop_excess_absent, find_entry-none,
}
use netgoat.Std.Table.Writes.{
  append_entry-IsKept, set_value-IsKept, refresh-IsKept, remove_at-set_value,
}
use netgoat.Challenge.Store.{
  failed_again, ChallengeEntry, VerifiedEntry, Store, entry_id, entry_expires, verified_binding,
  verified_expires, new_store, cleanup_expired_locked, remove_challenge_locked, first_unused,
  record_failure_locked, mark_verified_locked,
}

abbrev pub HasTries : ℕ → ChallengeEntry → Type 0
HasTries limit e = e.failed_attempts < limit

abbrev pub IsOpen : ℕ → ℕ → ℕ → ℕ → Table Bytes ChallengeEntry → Type 0
IsOpen tries limit lo hi t = IsKept entry_id entry_expires (HasTries tries) limit lo hi t

abbrev pub IsPassed : ℕ → ℕ → ℕ → Table Bytes VerifiedEntry → Type 0
IsPassed limit lo hi t = IsKept verified_binding verified_expires (λ _. Unit) limit lo hi t

abbrev pub make_room : Store → Table Bytes VerifiedEntry
make_room s = drop_excess verified_binding s.max_verified (length s.verified.index + 1) s.verified

-- At the time `clock`: both tables are indexed by their keys, within their limits and in the order
-- of expiry, nothing expires later than its time to live from now, and every open challenge has
-- tries left.
pub record IsValidFrom (lo clock : ℕ) (s : Store) : Type 0 where
  pub opened :
      IsOpen s.max_failed_attempts s.max_challenges lo (clock + s.challenge_ttl) s.challenges
  pub passed : IsPassed s.max_verified lo (clock + s.verification_ttl) s.verified
  pub some_challenges : 0 < s.max_challenges
  pub some_verified : 0 < s.max_verified
  pub some_tries : 0 < s.max_failed_attempts
  pub some_ttl : 0 < s.verification_ttl

abbrev pub IsValid : ℕ → Store → Type 0
IsValid clock s = IsValidFrom 0 clock s

pub new_store-IsValid : (a b c d e : ℤ) (clock : ℕ) → IsValid clock (new_store a b c d e)
unfolding new_store
new_store-IsValid a b c d e clock = record {
  opened = empty-IsKept _ _ _ _ _ _;
  passed = empty-IsKept _ _ _ _ _ _;
  some_challenges = or_default_pos a 4096 (omega arith);
  some_verified = or_default_pos b 4096 (omega arith);
  some_tries = or_default_pos c 5 (omega arith);
  some_ttl = or_default_pos e _ (omega arith);
}

module _ {lo clock : ℕ} {s : Store} (v : IsValidFrom lo clock s) where
  pub later-IsValid : (now : ℕ) → clock ≤ now → IsValidFrom lo now s
  later-IsValid now q = record {
    opened = IsKept-later _ _ _ (now + s.challenge_ttl) s.challenges (omega arith) v.opened;
    passed = IsKept-later _ _ _ (now + s.verification_ttl) s.verified (omega arith) v.passed;
    some_challenges = v.some_challenges;
    some_verified = v.some_verified;
    some_tries = v.some_tries;
    some_ttl = v.some_ttl;
  }

  pub cleanup-IsValid : (now : ℕ) → IsValidFrom lo clock (cleanup_expired_locked now s)
  unfolding cleanup_expired_locked
  cleanup-IsValid now = record {
    opened = drop_expired-IsKept _ _ _ now _ s.challenges v.opened;
    passed = drop_expired-IsKept _ _ _ now _ s.verified v.passed;
    some_challenges = v.some_challenges;
    some_verified = v.some_verified;
    some_tries = v.some_tries;
    some_ttl = v.some_ttl;
  }

  -- After the clean-up everything that is left expires after `now`.
  pub cleanup_live : (now : ℕ) → IsValidFrom (now + 1) clock (cleanup_expired_locked now s)
  unfolding cleanup_expired_locked
  cleanup_live now = record {
    opened = drop_expired_live _ _ _ now _ s.challenges v.opened (omega arith);
    passed = drop_expired_live _ _ _ now _ s.verified v.passed (omega arith);
    some_challenges = v.some_challenges;
    some_verified = v.some_verified;
    some_tries = v.some_tries;
    some_ttl = v.some_ttl;
  }

  module _ (h : ℕ) (e : ChallengeEntry) (at : value h s.challenges.order ≡ some e) where
    pub remove_challenge-IsValid : IsValidFrom lo clock (remove_challenge_locked h e s)
    unfolding remove_challenge_locked
    remove_challenge-IsValid = record {
      opened = remove_at-IsKept _ _ _ v.opened h e at;
      passed = v.passed;
      some_challenges = v.some_challenges;
      some_verified = v.some_verified;
      some_tries = v.some_tries;
      some_ttl = v.some_ttl;
    }

    pub record_failure-IsValid : IsValidFrom lo clock (record_failure_locked h e s)
    unfolding record_failure_locked remove_challenge_locked
    record_failure-IsValid = elim (Bool-cases (leb s.max_failed_attempts (e.failed_attempts + 1))) [
      | inl last_try ↦
          rw (last_try, record_failure_locked)
            (record {
              opened =
                  rw
                    (remove_at-set_value entry_id h e (failed_again e) s.challenges
                      (value_key entry_id v.opened.indexed h e at) at refl)
                    (remove_at-IsKept _ _ _ v.opened h e at);
              passed = v.passed;
              some_challenges = v.some_challenges;
              some_verified = v.some_verified;
              some_tries = v.some_tries;
              some_ttl = v.some_ttl;
            })
      | inr more ↦
          rw (more, record_failure_locked)
            (record {
              opened =
                  set_value-IsKept _ _ _ v.opened h e (failed_again e) at refl refl (ground arith);
              passed = v.passed;
              some_challenges = v.some_challenges;
              some_verified = v.some_verified;
              some_tries = v.some_tries;
              some_ttl = v.some_ttl;
            })
    ]

  -- Room for one more client that has passed.
  pub room_verified :
      (IsPassed s.max_verified lo (clock + s.verification_ttl) (make_room s))
      × (length (make_room s).index < s.max_verified)
  room_verified = (
    drop_excess-IsKept _ _ _ s.max_verified _ s.verified v.passed,
    length-drop_excess _ _ _ s.max_verified _ s.verified v.some_verified v.passed (omega arith),
  )

  -- An address that passes at the time `clock` is put at the back of the verified ones.
  pub mark_verified-IsValid :
      (binding : Bytes)
      → lo ≤ clock + s.verification_ttl
      → IsValidFrom lo clock (mark_verified_locked binding clock s)
  unfolding mark_verified_locked
  mark_verified-IsValid binding q =
      elim (Option-cases (find_entry verified_binding binding s.verified)) [
        | inl new ↦
            rw (new, mark_verified_locked)
              (record {
                opened = v.opened;
                passed =
                    append_entry-IsKept _ _ _ room_verified.0 _
                      (drop_excess_absent _ _ _ s.max_verified _ s.verified v.passed binding
                        (find_entry-none _ _ _ s.verified v.passed binding new))
                      room_verified.1 q (omega arith) tt;
                some_challenges = v.some_challenges;
                some_verified = v.some_verified;
                some_tries = v.some_tries;
                some_ttl = v.some_ttl;
              })
        | inr ((h, e), known) ↦
            let (hit, at, same) = find_entry-some _ _ _ v.passed binding h e known in
            rw (known, mark_verified_locked)
              (record {
                opened = v.opened;
                passed = refresh-IsKept _ _ _ v.passed h e _ at (sym same) q (omega arith) tt;
                some_challenges = v.some_challenges;
                some_verified = v.some_verified;
                some_tries = v.some_tries;
                some_ttl = v.some_ttl;
              })
      ]

pub from_start : (lo clock : ℕ) (s : Store) → IsValidFrom lo clock s → IsValid clock s
from_start lo clock s v = record {
  opened = IsKept-lower _ _ _ 0 s.challenges (omega arith) v.opened;
  passed = IsKept-lower _ _ _ 0 s.verified (omega arith) v.passed;
  some_challenges = v.some_challenges;
  some_verified = v.some_verified;
  some_tries = v.some_tries;
  some_ttl = v.some_ttl;
}

pub first_unused_absent :
    (ids : List Bytes) (t : Table Bytes ChallengeEntry) (id : Bytes)
    → first_unused ids t ≡ some id
    → lookup id t.index ≡ none
unfolding first_unused
first_unused_absent [] t id p = cc
first_unused_absent (i ∷ ids) t id p = elim (Option-cases (lookup i t.index)) [
  | inl free ↦ ground (arith, free)
  | inr (h, used) ↦ first_unused_absent ids t id (ground (arith, used))
]

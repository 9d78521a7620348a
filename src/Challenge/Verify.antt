-- ===== src/Challenge/Verify.antt =====
-- What a client can count on: which challenge is found, when an address passes, and for how long.
use netgoat.Prelude.{
  ℕ, ◌≡◌, refl, ◌∙◌, true, false, Bool-cases, inl, inr, Option, none, some, Option-cases,
  if◌then◌else◌, ◌==◌, nat_eq, ltb, length, arith,
}
use netgoat.Std.Text.{Bytes, bytes_eq}
use netgoat.Std.Table.{find_entry}
use netgoat.Std.Table.Live.{if_live, find-drop_expired}
use netgoat.Challenge.Store.{
  Challenge, ChallengeEntry, VerifiedEntry, Store, entry_id, entry_expires, challenge_id_length,
  verified_binding, verified_expires, cleanup_expired_locked, get, is_verified,
}
use netgoat.Challenge.Valid.{IsValid}

-- The challenge with the id that has not expired.
unfoldable pub live_challenge : Bytes → ℕ → Store → Option (ℕ × ChallengeEntry)
live_challenge id now s = if_live entry_expires now (find_entry entry_id id s.challenges)

-- The record of an address that has passed and is not to be asked again.
unfoldable pub live_verified : Bytes → ℕ → Store → Option (ℕ × VerifiedEntry)
live_verified binding now s =
    if_live verified_expires now (find_entry verified_binding binding s.verified)

unfoldable pub challenge_of : Option (ℕ × ChallengeEntry) → Option Challenge
challenge_of none = none
challenge_of (some (h, e)) = some e.challenge

module _ {clock : ℕ} {s : Store} (v : IsValid clock s) (now : ℕ) where
  pub find_clean :
      (id : Bytes)
      → find_entry entry_id id (cleanup_expired_locked now s).challenges ≡ live_challenge id now s
  unfolding cleanup_expired_locked live_challenge
  find_clean id = find-drop_expired _ _ _ now _ s.challenges v.opened (omega arith) id

  pub find_clean_verified :
      (binding : Bytes)
      → find_entry verified_binding binding (cleanup_expired_locked now s).verified
        ≡ live_verified binding now s
  unfolding cleanup_expired_locked live_verified
  find_clean_verified binding =
      find-drop_expired _ _ _ now _ s.verified v.passed (omega arith) binding

  -- `Get` gives the challenge with the id that has not expired, for an id of the right length:
  -- the two look-ups, under the read lock and after a clean-up, come to one.
  pub get-live_challenge :
      (id : Bytes)
      → (get id now s).0 ≡ (
          if length id == challenge_id_length then challenge_of (live_challenge id now s) else none)
  unfolding get challenge_of live_challenge if_live
  get-live_challenge id = elim (Bool-cases (length id == challenge_id_length)) [
    | inr odd ↦ rw (odd, get) refl
    | inl even ↦ elim (Option-cases (find_entry entry_id id s.challenges)) [
      | inl miss ↦ rw (even, miss, get) refl
      | inr ((h, e), hit) ↦
          let clean = find_clean id in
          elim (Bool-cases (ltb now e.challenge.expires_at)) [
            | inl live ↦ rw (even, hit, live, get) refl
            | inr old ↦
                let gone : find_entry entry_id id (cleanup_expired_locked now s).challenges ≡ none =
                  clean ∙ rw (hit, live_challenge) (rw (old, if_live) refl) in
                rw (even, hit, old, get) (rw gone refl)
          ]
    ]
  ]

module _ (sum : Bytes → Bytes) where
  -- `IsVerified` holds exactly while the record of the address has not expired.
  pub is_verified-live_verified :
      {clock : ℕ} {s : Store} (v : IsValid clock s) (ip : Bytes) (now : ℕ)
      → (is_verified sum ip now s).0
        ≡ (elim (live_verified (sum ip) now s) [ none ↦ false | some _ ↦ true ])
  unfolding is_verified live_verified if_live
  is_verified-live_verified {clock} {s} v ip now =
      elim (Option-cases (find_entry verified_binding (sum ip) s.verified)) [
        | inl miss ↦ rw (miss, is_verified) refl
        | inr ((h, e), hit) ↦ elim (Bool-cases (ltb now e.expires_at)) [
          | inl live ↦ rw (hit, live, is_verified) refl
          | inr old ↦
              let gone : find_entry verified_binding (sum ip)
                    (cleanup_expired_locked now s).verified
                  ≡ none =
                find_clean_verified v now (sum ip)
                ∙ rw (hit, live_verified) (rw (old, if_live) refl) in
              rw (hit, old, is_verified) (rw gone refl)
        ]
      ]

-- ===== src/Auth/Users.antt =====
-- The tables `users` and `user_sessions`, as internal/auth/auth.go reads and writes them. Time is in
-- seconds, as `datetime('now')` gives it.
use netgoat.Prelude.{
  ℕ, ◌+◌, ◌*◌, Bool, Option, none, some, List, [], ◌∷◌, if◌then◌else◌, ◌==◌, nat_eq, ltb, leb,
  ◌>>=◌,
}
use netgoat.Std.Dict.{Dict, lookup, insert}
use netgoat.Std.Text.{Bytes, bytes_eq}
use netgoat.Std.Sort.{find_first}

pub record User : Type 0 where
  pub id : ℕ
  pub username : Bytes
  pub password_hash : Bytes
  pub zero_trust_enabled : ℕ

pub record Session : Type 0 where
  pub user_id : ℕ
  pub expires_at : ℕ

-- `token` is unique.
pub record Users : Type 0 where
  pub rows : List User
  pub sessions : Dict Bytes Session

unfoldable pub user_named : Bytes → List User → Option User
user_named username rows = find_first (λ u. u.username == username) rows

unfoldable pub user_with_id : ℕ → List User → Option User
user_with_id id rows = find_first (λ u. u.id == id) rows

-- The user of a session that has not expired.
unfoldable pub session_user : Bytes → ℕ → Users → Option User
session_user token now db = lookup token db.sessions >>= λ s.
    if ltb now s.expires_at then user_with_id s.user_id db.rows else none

unfoldable pub delete_expired : ℕ → Dict Bytes Session → Dict Bytes Session
delete_expired now [] = []
delete_expired now ((token, s) ∷ rest) =
    if leb s.expires_at now then delete_expired now rest else (token, s) ∷ delete_expired now rest

unfoldable pub prune_expired_sessions : ℕ → Users → Users
prune_expired_sessions now db = record db { sessions = delete_expired now db.sessions }

-- A token that is taken is refused.
unfoldable pub insert_session : Bytes → Session → Users → Option Users
insert_session token s db = elim (lookup token db.sessions) [
  | none ↦ some (record db { sessions = insert token s db.sessions })
  | some _ ↦ none
]

-- What a call of `createSession` meets: whether the expired sessions can be deleted, the token that
-- it draws, and whether the new row can be written.
pub record SessionIo : Type 0 where
  pub can_prune : Bool
  pub drawn : Option Bytes
  pub can_insert : Bool

unfoldable pub day : ℕ
day = 24 * 60 * 60

-- The token is empty where no session is made.
unfoldable pub store_session : SessionIo → ℕ → User → Users → Bytes × Users
store_session io now u db = elim io.drawn [
  | none ↦ ([], db)
  | some token ↦
      if io.can_insert
      then elim (insert_session token (record { user_id = u.id; expires_at = now + day }) db) [
        | none ↦ ([], db)
        | some db' ↦ (token, db')
      ]
      else ([], db)
]

unfoldable pub create_session : SessionIo → ℕ → Bytes → Users → Bytes × Users
create_session io now username db = elim (user_named username db.rows) [
  | none ↦ ([], db)
  | some u ↦ store_session io now u (if io.can_prune then prune_expired_sessions now db else db)
]

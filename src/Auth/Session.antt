-- ===== src/Auth/Session.antt =====
-- What a login of internal/auth/auth.go opens.
use netgoat.Prelude.{
  ℕ, ◌+◌, ◌⊎◌, ◌≡◌, refl, sym, ap, ◌∙◌, Bool, true, false, Bool-cases, inl, inr, Option, none, some,
  Option-cases, List, [], ◌∷◌, if◌then◌else◌, ◌==◌, nat_eq, eq_of_==, ==_refl, ltb,
}
use mathlib.Core.Path.{subst}
use netgoat.Std.Dict.{lookup, insert, lookup-insert}
use netgoat.Std.Text.{Bytes, bytes_beq, bytes_eq, codes}
use netgoat.Std.Sort.{find_first}
use netgoat.Std.Url.{Values}
use netgoat.Auth.Users.{
  User, Session, Users, SessionIo, user_named, user_with_id, session_user, prune_expired_sessions,
  insert_session, store_session, create_session, day,
}
use netgoat.Auth.Check.{no_result, result_for, validate_session, check_cookie, check}
use netgoat.Auth.Login.{
  login_page, login_error, logged_in, form_value, answer_session, login_form, handle_login,
}

-- No two rows have the same id, as the primary key ensures.
unfoldable pub HasKey : List User → Type 0
HasKey [] = Unit
HasKey (u ∷ rows) = (user_with_id u.id rows ≡ none) × HasKey rows

-- The row that a name finds is the row that its id finds.
user_with_id-user_named :
    (username : Bytes) (rows : List User) (u : User)
    → HasKey rows
    → user_named username rows ≡ some u
    → user_with_id u.id rows ≡ some u
unfolding user_named user_with_id find_first HasKey
user_with_id-user_named username [] u k h = cc
user_with_id-user_named username (v ∷ rows) u (fresh, k) h =
    elim (Bool-cases (v.username == username)) [
      | inl here ↦
          let q : some v ≡ some u = rw here at h in
          let same : v ≡ u = cc in
          subst (λ w. user_with_id w.id (v ∷ rows) ≡ some w) same (rw (==_refl v.id) refl)
      | inr later ↦
          let found : user_named username rows ≡ some u = rw later at h in
          let rest = user_with_id-user_named username rows u k found in
          elim (Bool-cases (v.id == u.id)) [
            | inl taken ↦
                let id_eq : v.id ≡ u.id = eq_of_== v.id u.id taken in
                let gone : user_with_id u.id rows ≡ none = rw id_eq at fresh in cc
            | inr free ↦ rw free rest
          ]
    ]

-- A result of `createSession`: no token, or one whose session runs for a day.
unfoldable Opens : User → ℕ → Users → Bytes × Users → Type 0
Opens u now db (token, db') =
    ((token == []) ≡ true)
    ⊎ ((db'.rows ≡ db.rows)
        × (lookup token db'.sessions ≡ some (record { user_id = u.id; expires_at = now + day })))

insert_session_lem :
    (token : Bytes) (s : Session) (db : Users)
    → (insert_session token s db ≡ none)
      ⊎ ((db' : Users) × (insert_session token s db ≡ some db')
          × (db'.rows ≡ db.rows)
          × (lookup token db'.sessions ≡ some s))
unfolding insert_session
insert_session_lem token s db = elim (Option-cases (lookup token db.sessions)) [
  | inl free ↦
      let found : lookup token (insert token s db.sessions) ≡ some s =
        lookup-insert token token s db.sessions ∙ rw (==_refl token) refl in
      inr (_, rw (free, insert_session) refl, refl, found)
  | inr (old, taken) ↦ inl (rw (taken, insert_session) refl)
]

store_session-Opens :
    (io : SessionIo) (now : ℕ) (u : User) (db : Users) → Opens u now db (store_session io now u db)
unfolding store_session Opens bytes_beq
store_session-Opens io now u db = elim (Option-cases io.drawn) [
  | inl dry ↦ rw (dry, store_session) (inl refl)
  | inr (token, drawn) ↦ elim (Bool-cases io.can_insert) [
    | inr blocked ↦ rw (drawn, blocked, store_session) (inl refl)
    | inl open_db ↦
        elim (insert_session_lem token (record { user_id = u.id; expires_at = now + day }) db) [
          | inl taken ↦ rw (drawn, open_db, taken, store_session) (inl refl)
          | inr (db', written, rows, found) ↦
              rw (drawn, open_db, written, store_session) (inr (rows, found))
        ]
  ]
]

create_session-Opens :
    (io : SessionIo) (now : ℕ) (username : Bytes) (u : User) (db : Users)
    → user_named username db.rows ≡ some u
    → Opens u now db (create_session io now username db)
unfolding create_session prune_expired_sessions Opens store_session
create_session-Opens io now username u db found = elim (Bool-cases io.can_prune) [
  | inl can ↦
      rw (found, can, create_session) (store_session-Opens io now u (prune_expired_sessions now db))
  | inr cannot ↦ rw (found, cannot, create_session) (store_session-Opens io now u db)
]

answer_session-logged_in :
    (u : User) (now : ℕ) (db : Users) (r : Bytes × Users) (token : Bytes) (db' : Users)
    → Opens u now db r
    → answer_session r ≡ (logged_in token, db')
    → ((token == []) ≡ false)
      × (db'.rows ≡ db.rows)
      × (lookup token db'.sessions ≡ some (record { user_id = u.id; expires_at = now + day }))
unfolding answer_session Opens
answer_session-logged_in u now db (t, db'') token db' opens h = elim (Bool-cases (t == [])) [
  | inl nothing ↦ let q : login_error 500 ≡ logged_in token = ap (λ p. p.0) (rw nothing at h) in cc
  | inr something ↦
      let q : (logged_in t, db'') ≡ (logged_in token, db') = rw something at h in
      let same : t ≡ token = cc in
      let same_db : db'' ≡ db' = ap (λ p. p.1) q in
      elim opens [
        | inl nothing ↦ let clash : true ≡ false = sym nothing ∙ something in cc
        | inr (rows, found) ↦
            let filled : (token == []) ≡ false = rw same at something in
            let kept : db'.rows ≡ db.rows = rw same_db at rows in
            (filled, kept, rw (same, same_db) at found)
      ]
]

module _ (compare : Bytes → Bytes → Bool) where
  login_form-logged_in :
      (io : SessionIo) (now : ℕ) (username password : Bytes) (db db' : Users) (token : Bytes)
      → login_form compare io now username password db ≡ (logged_in token, db')
      → (u : User) × (user_named username db.rows ≡ some u)
        × (compare u.password_hash password ≡ true)
        × ((token == []) ≡ false)
        × (db'.rows ≡ db.rows)
        × (lookup token db'.sessions ≡ some (record { user_id = u.id; expires_at = now + day }))
  unfolding login_form
  login_form-logged_in io now username password db db' token h =
      elim (Option-cases (user_named username db.rows)) [
        | inl absent ↦
            let q : login_error 401 ≡ logged_in token =
              ap (λ p. p.0) (rw (absent, login_form) at h) in
            cc
        | inr (u, found) ↦ elim (Bool-cases (compare u.password_hash password)) [
          | inr wrong ↦
              let q : login_error 401 ≡ logged_in token =
                ap (λ p. p.0) (rw (found, wrong, login_form) at h) in
              cc
          | inl right ↦
              let q : answer_session (create_session io now username db) ≡ (logged_in token, db') =
                rw (found, right, login_form) at h in
              let (filled, rows, opened) =
                answer_session-logged_in u now db (create_session io now username db) token db'
                  (create_session-Opens io now username u db found) q in
              (u, found, right, filled, rows, opened)
        ]
      ]

  -- The session that is opened for a user is that user until it expires.
  check-opened :
      (u : User) (t until : ℕ) (token : Bytes) (db : Users)
      → (token == []) ≡ false
      → user_with_id u.id db.rows ≡ some u
      → lookup token db.sessions ≡ some (record { user_id = u.id; expires_at = until })
      → check compare (record { authorization = []; auth_token = some token }) t db
        ≡ (if ltb t until then result_for u token else no_result)
  unfolding check check_cookie validate_session session_user bytes_beq
  check-opened u t until token db filled user found = elim (Bool-cases (ltb t until)) [
    | inl early ↦ rw (filled, found, early, user, validate_session, session_user) refl
    | inr late ↦ rw (filled, found, late, validate_session, session_user) refl
  ]

  -- Only a POST whose form has the name and the password of a user is answered with a session, and
  -- the cookie that it sets is that user's for a day from then on: a request that shows it and has no
  -- `Authorization` header is authenticated as the user before the day is over, and as nobody after.
  pub handle_login-check :
      (io : SessionIo) (now : ℕ) (method : Bytes) (form : Option Values) (db db' : Users)
      (token : Bytes) (t : ℕ)
      → HasKey db.rows
      → handle_login compare io now method form db ≡ (logged_in token, db')
      → (values : Values) × (u : User) × (form ≡ some values)
        × (method ≡ codes "POST")
        × (user_named (form_value (codes "username") values) db.rows ≡ some u)
        × (compare u.password_hash (form_value (codes "password") values) ≡ true)
        × (check compare (record { authorization = []; auth_token = some token }) t db'
            ≡ (if ltb t (now + day) then result_for u token else no_result))
  unfolding handle_login
  handle_login-check io now method form db db' token t key h =
      elim (Bool-cases (method == codes "GET")) [
        | inl is_get ↦ let q : login_page ≡ logged_in token = ap (λ p. p.0) (rw is_get at h) in cc
        | inr not_get ↦ elim (Bool-cases (method == codes "POST")) [
          | inr other ↦
              let q : login_error 405 ≡ logged_in token =
                ap (λ p. p.0) (rw other at (rw not_get at h)) in
              cc
          | inl is_post ↦ elim (Option-cases form) [
            | inl bad ↦
                let q : login_error 400 ≡ logged_in token =
                  ap (λ p. p.0) (rw bad at (rw is_post at (rw not_get at h))) in
                cc
            | inr (values, parsed) ↦
                let q : login_form compare io now (form_value (codes "username") values)
                      (form_value (codes "password") values) db
                    ≡ (logged_in token, db') =
                  rw parsed at (rw is_post at (rw not_get at h)) in
                let (u, found, right, filled, rows, opened) =
                  login_form-logged_in io now (form_value (codes "username") values)
                    (form_value (codes "password") values) db db' token q in
                let known =
                  user_with_id-user_named (form_value (codes "username") values) db.rows u key
                    found in
                let known' : user_with_id u.id db'.rows ≡ some u = rw rows known in
                (
                  values,
                  u,
                  parsed,
                  eq_of_== method (codes "POST") is_post,
                  found,
                  right,
                  check-opened u t (now + day) token db' filled known' opened,
                )
          ]
        ]
      ]

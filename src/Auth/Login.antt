-- ===== src/Auth/Login.antt =====
-- `HandleLogin` of internal/auth/auth.go. The form is missing where it cannot be parsed.
use netgoat.Prelude.{ℕ, Bool, not, Option, none, some, List, [], ◌∷◌, if◌then◌else◌, ◌==◌}
use netgoat.Std.Dict.{lookup}
use netgoat.Std.Text.{Bytes, bytes_eq, codes}
use netgoat.Std.Url.{Values}
use netgoat.Auth.Users.{Users, SessionIo, user_named, create_session}

-- The page with the form, an error of a status, or a redirection that sets the cookie to the token.
pub data LoginResponse : Type 0 where
  login_page : LoginResponse
  login_error : ℕ → LoginResponse
  logged_in : Bytes → LoginResponse

unfoldable pub first_of : Option (List Bytes) → Bytes
first_of none = []
first_of (some []) = []
first_of (some (v ∷ _)) = v

unfoldable pub form_value : Bytes → Values → Bytes
form_value name values = first_of (lookup name values)

unfoldable pub answer_session : Bytes × Users → LoginResponse × Users
answer_session (token, db) = if token == [] then (login_error 500, db) else (logged_in token, db)

module _ (compare : Bytes → Bytes → Bool) where
  unfoldable pub login_form : SessionIo → ℕ → Bytes → Bytes → Users → LoginResponse × Users
  login_form io now username password db = elim (user_named username db.rows) [
    | none ↦ (login_error 401, db)
    | some u ↦
        if compare u.password_hash password
        then answer_session (create_session io now username db)
        else (login_error 401, db)
  ]

  unfoldable pub handle_login :
      SessionIo → ℕ → Bytes → Option Values → Users → LoginResponse × Users
  handle_login io now method form db =
      if method == codes "GET"
      then (login_page, db)
      else if not (method == codes "POST")
      then (login_error 405, db)
      else elim form [
        | none ↦ (login_error 400, db)
        | some values ↦
            login_form io now (form_value (codes "username") values)
              (form_value (codes "password") values) db
      ]

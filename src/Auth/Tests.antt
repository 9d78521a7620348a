-- ===== src/Auth/Tests.antt =====
-- A user, a password compared as it is, a request with Basic credentials and a login.
use netgoat.Prelude.{◌+◌, ◌≡◌, refl, true, none, some, [], ◌∷◌, if◌then◌else◌, ltb, arith}
use netgoat.Std.Dict.{lookup, insert}
use netgoat.Std.Sort.{find_first}
use netgoat.Std.Text.{bytes_beq, bytes_eq, codes}
use netgoat.Std.Url.{Values}
use netgoat.Auth.Users.{
  User, Users, SessionIo, user_named, user_with_id, create_session, store_session, insert_session,
  prune_expired_sessions, delete_expired, day,
}
use netgoat.Auth.Check.{authenticate_user, check, result_for, no_result}
use netgoat.Auth.Credentials.{basic_header, check-basic_header}
use netgoat.Auth.Login.{logged_in, first_of, form_value, answer_session, login_form, handle_login}
use netgoat.Auth.Session.{HasKey, handle_login-check}

abbrev duck : User
duck = record {
  id = 7;
  username = codes "duck";
  password_hash = codes "a:b";
  zero_trust_enabled = 1;
}

abbrev db : Users
db = record { rows = duck ∷ []; sessions = [] }

check-basic_header_example :
    check bytes_beq
      (record { authorization = basic_header (codes "duck") (codes "a:b"); auth_token = none })
      5
      db
    ≡ authenticate_user bytes_beq (codes "duck") (codes "a:b") db
check-basic_header_example =
    check-basic_header bytes_beq db 5 none (codes "duck") (codes "a:b")
      (omega arith, (omega arith, (omega arith, (omega arith, tt))))
      (omega arith, (omega arith, (omega arith, tt))) (refl, (refl, (refl, (refl, tt))))

abbrev io : SessionIo
io = record { can_prune = true; drawn = some (codes "T0K3N"); can_insert = true }

abbrev form : Values
form = (codes "username", codes "duck" ∷ []) ∷ (codes "password", codes "a:b" ∷ []) ∷ []

abbrev db' : Users
db' = record db {
  sessions = (codes "T0K3N", record { user_id = 7; expires_at = 100 + 86400 }) ∷ [];
}

db-HasKey : HasKey db.rows
unfolding HasKey user_with_id find_first
db-HasKey = (refl, tt)

login_run :
    handle_login bytes_beq io 100 (codes "POST") (some form) db ≡ (logged_in (codes "T0K3N"), db')
unfolding handle_login login_form form_value first_of lookup user_named find_first create_session
    store_session insert_session insert prune_expired_sessions delete_expired answer_session day
    bytes_beq
login_run = refl

handle_login-check_example :
    (values : Values) × (u : User) × (some form ≡ some values)
    × (codes "POST" ≡ codes "POST")
    × (user_named (form_value (codes "username") values) db.rows ≡ some u)
    × (bytes_beq u.password_hash (form_value (codes "password") values) ≡ true)
    × (check bytes_beq (record { authorization = []; auth_token = some (codes "T0K3N") }) 86499 db'
        ≡ (if ltb 86499 (100 + day) then result_for u (codes "T0K3N") else no_result))
handle_login-check_example =
    handle_login-check bytes_beq io 100 (codes "POST") (some form) db db' (codes "T0K3N") 86499
      db-HasKey login_run

-- ===== src/Auth/Check.antt =====
-- `Check` and `RequireZeroTrustChallenge` of internal/auth/auth.go. `compare` stands for
-- `bcrypt.CompareHashAndPassword`, true where it reports no error.
use netgoat.Prelude.{
  ℕ, Bool, true, false, not, ◌&&◌, Option, none, some, [], if◌then◌else◌, ◌==◌, nat_eq,
}
use netgoat.Std.Text.{Bytes, bytes_eq, codes, cut}
use netgoat.Auth.Base64.{decode_string}
use netgoat.Auth.Users.{User, Users, user_named, session_user}

pub record AuthResult : Type 0 where
  pub authenticated : Bool
  pub username : Bytes
  pub user_id : ℕ
  pub zero_trust_req : Bool
  pub session_token : Bytes

abbrev pub no_result : AuthResult
no_result = record {
  authenticated = false;
  username = [];
  user_id = 0;
  zero_trust_req = false;
  session_token = [];
}

-- The header, and the value of the cookie `auth_token`.
pub record Credentials : Type 0 where
  pub authorization : Bytes
  pub auth_token : Option Bytes

unfoldable pub result_for : User → Bytes → AuthResult
result_for u token = record {
  authenticated = true;
  username = u.username;
  user_id = u.id;
  zero_trust_req = u.zero_trust_enabled == 1;
  session_token = token;
}

unfoldable pub validate_session : Bytes → ℕ → Users → AuthResult
validate_session token now db = elim (session_user token now db) [
  | none ↦ no_result
  | some u ↦ result_for u token
]

unfoldable pub check_cookie : Option Bytes → ℕ → Users → AuthResult
check_cookie none now db = no_result
check_cookie (some token) now db = if token == [] then no_result else validate_session token now db

unfoldable pub require_zero_trust_challenge : AuthResult → Bool → Bool → Bool
require_zero_trust_challenge result global_enabled verified =
    if not result.authenticated
    then false
    else global_enabled && (result.zero_trust_req && not verified)

module _ (compare : Bytes → Bytes → Bool) where
  unfoldable pub authenticate_user : Bytes → Bytes → Users → AuthResult
  authenticate_user username password db = elim (user_named username db.rows) [
    | none ↦ no_result
    | some u ↦ if compare u.password_hash password then result_for u [] else no_result
  ]

  unfoldable pub check_pair : Option (Bytes × Bytes) → Users → AuthResult
  check_pair none db = no_result
  check_pair (some (username, password)) db = authenticate_user username password db

  unfoldable pub check_payload : Option Bytes → Users → AuthResult
  check_payload none db = no_result
  check_payload (some payload) db = check_pair (cut b':' payload) db

  unfoldable pub check_header : Option (Bytes × Bytes) → Users → AuthResult
  check_header none db = no_result
  check_header (some (scheme, value)) db =
      if scheme == codes "Basic" then check_payload (decode_string value) db else no_result

  unfoldable pub check : Credentials → ℕ → Users → AuthResult
  check c now db =
      if c.authorization == []
      then check_cookie c.auth_token now db
      else check_header (cut b' ' c.authorization) db

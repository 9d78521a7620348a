-- ===== src/Auth/Credentials.antt =====
-- The Basic scheme of `Check` in internal/auth/auth.go.
use netgoat.Prelude.{
  ℕ, ◌<◌, ◌≡◌, refl, Bool, false, Option, some, [], ◌∷◌, ◌++◌, ◌==◌, nat_eq, All, All-append, arith,
}
use netgoat.Std.Text.{Bytes, bytes_beq, bytes_eq, codes, cut}
use netgoat.Auth.Base64.{encode, decode_string-encode}
use netgoat.Auth.Users.{Users}
use netgoat.Auth.Check.{authenticate_user, check_pair, check_payload, check_header, check}

-- What `SetBasicAuth` puts into the header.
abbrev pub basic_header : Bytes → Bytes → Bytes
basic_header username password = codes "Basic " ++ encode (username ++ b':' ∷ password)

cut-append :
    (s t : Bytes) → All (λ c. (c == b':') ≡ false) s → cut b':' (s ++ b':' ∷ t) ≡ some (s, t)
unfolding cut
cut-append [] t h = refl
cut-append (c ∷ s) t (hc, h) = rw (hc, cut-append s t h) refl

-- A request whose header is the Basic encoding of a name without a colon and a password is judged by
-- exactly that name and that password.
pub check-basic_header :
    (compare : Bytes → Bytes → Bool) (db : Users) (now : ℕ) (cookie : Option Bytes)
    (username password : Bytes)
    → All (λ c. c < 256) username
    → All (λ c. c < 256) password
    → All (λ c. (c == b':') ≡ false) username
    → check compare
        (record { authorization = basic_header username password; auth_token = cookie })
        now
        db
      ≡ authenticate_user compare username password db
unfolding check check_header cut check_payload check_pair authenticate_user bytes_beq
check-basic_header compare db now cookie username password hu hp plain =
    let pair = username ++ b':' ∷ password in
    let small : All (λ c. c < 256) pair =
      All-append (λ c. c < 256) username (b':' ∷ password) hu (omega arith, hp) in
    rw (decode_string-encode pair small, cut-append username password plain) refl

-- ===== src/Tests/Login.antt =====
-- A registration and what follows it, with a toy hash and toy tokens.
use earn_defi_nestjs_backend.Base.{
  ℕ, ltb, ◌<◌, ◌≤◌, if◌then◌else◌, arith, ◌+◌, ◌*◌, ◌==◌, ◌≡◌, ◌≢◌, refl, Option, none, some, [],
  ◌∷◌, Text, trim, find_first, ==_refl,
}
use earn_defi_nestjs_backend.Schema.Rows.{Db}
use earn_defi_nestjs_backend.Monad.{ok, err, http, log_audit}
use earn_defi_nestjs_backend.Auth.{
  Bcrypt, JwtPayload, Jwt, Credentials, AuthResponse, normalized_email, register, login,
  authenticate,
}
use earn_defi_nestjs_backend.Auth.Login.{register_then}
use earn_defi_nestjs_backend.Tests.Data.{tables}

digest : Text → ℕ
digest [] = 7
digest (c ∷ cs) = c + 31 * digest cs

abbrev toy_bcrypt : Bcrypt
toy_bcrypt = record {
  hash = λ salt password. digest password;
  compare = λ password h. digest password == h;
  compare-hash = λ salt password. ==_refl (digest password);
}

-- A token is its time, its subject and its email.
abbrev read_token : ℕ → Text → Option JwtPayload
read_token now [] = none
read_token now (at ∷ []) = none
read_token now (at ∷ sub ∷ email) =
    if ltb now (at + 604800) then some (record { sub = sub; email = email }) else none

read_token-alive :
    (at now : ℕ) (payload : JwtPayload)
    → now < at + 604800
    → read_token now (at ∷ payload.sub ∷ payload.email) ≡ some payload
read_token-alive at now payload alive = ground arith

read_token-expired :
    (at now : ℕ) (payload : JwtPayload)
    → at + 604800 ≤ now
    → read_token now (at ∷ payload.sub ∷ payload.email) ≡ none
read_token-expired at now payload dead = ground arith

abbrev toy_jwt : Jwt
toy_jwt = record {
  expires_in = 604800;
  sign = λ at payload. at ∷ payload.sub ∷ payload.email;
  verify = read_token;
  verify-sign = λ at now payload since alive. read_token-alive at now payload alive;
  verify-expired = read_token-expired;
}

-- ` A@b ` and a password; the row that is made has the email `a@b`.
abbrev dto : Credentials
dto = record { email = 32 ∷ 65 ∷ 64 ∷ 98 ∷ 32 ∷ []; password = 120 ∷ 121 ∷ [] }

abbrev response : AuthResponse
response = record {
  access_token = 1000 ∷ 100 ∷ 97 ∷ 64 ∷ 98 ∷ [];
  user = record {
    id = 100;
    email = some (97 ∷ 64 ∷ 98 ∷ []);
    created_at = 1000000;
    updated_at = 1000000;
  };
}

abbrev empty : Db
empty = tables [] []

given : normalized_email dto.email ≢ []
unfolding trim
given e = cc

-- `a@B`, in the state that the registration left.
abbrev again : Credentials
again = record { email = 97 ∷ 64 ∷ 66 ∷ []; password = 120 ∷ 121 ∷ [] }

-- The login follows at once; the tokens are used eight days after it.
abbrev later : Db
later = (register toy_bcrypt toy_jwt 5 dto empty).1

abbrev next_week : Db
next_week = record later { now = 692200000 }

register_then_example :
    (authenticate toy_jwt response.access_token next_week ≡ (err (http 401), next_week))
    × ((s : AuthResponse) × ((login toy_bcrypt toy_jwt again later).0 ≡ ok s)
        × (s.user ≡ response.user)
        × (authenticate toy_jwt s.access_token next_week ≡ (err (http 401), next_week)))
    × (register toy_bcrypt toy_jwt 6 (record again { password = [] }) later
        ≡ (err (http 409), later))
unfolding register find_first log_audit trim
register_then_example =
    register_then toy_bcrypt toy_jwt 5 6 dto again [] empty later later next_week response refl
      given refl refl refl (omega arith) (omega arith)

-- An hour after the registration the token is good.
authenticate_test :
    authenticate toy_jwt response.access_token (record later { now = 4600000 })
    ≡ (ok (record { user_id = 100; email = 97 ∷ 64 ∷ 98 ∷ [] }), record later { now = 4600000 })
unfolding authenticate earn_defi_nestjs_backend.Base.eq_text
authenticate_test = refl

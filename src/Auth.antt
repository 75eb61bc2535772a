-- ===== src/Auth.antt =====
-- auth/auth.service.ts and auth/strategies/jwt.strategy.ts: registration, login and the check of a
-- token's payload. bcrypt and the JSON web tokens are parameters.
pub mod Login
use earn_defi_nestjs_backend.Base.{
  ℕ, suc, ◌+◌, ◌/◌, ◌≤◌, ◌<◌, ◌==◌, ◌≡◌, if◌then◌else◌, Bool, true, false, not, ◌||◌, Option, none,
  some, [], ◌∷◌, Text, trim, to_lower_case, eq_text, find_first,
}
use earn_defi_nestjs_backend.Schema.Status.{AuditAction}
use earn_defi_nestjs_backend.Schema.Rows.{Db, User, MetaKey, MetaValue, words, absent}
use earn_defi_nestjs_backend.Monad.{
  ok, err, Action, pure, raise, gets, or_raise, raise_if, ◌>>=◌, ◌>>◌, log_audit, http,
  record_missing, unique_violation,
}

-- bcrypt, with the salt that it draws, and what its documentation promises: a password matches its
-- own hash.
pub record Bcrypt : Type 0 where
  pub hash : ℕ → Text → ℕ
  pub compare : Text → ℕ → Bool
  pub compare-hash : (salt : ℕ) (password : Text) → compare password (hash salt password) ≡ true

-- `JwtPayload`: `sub` and `email`.
pub record JwtPayload : Type 0 where
  pub sub : ℕ
  pub email : Text

-- The token service, with the seconds for which a token lives (`expiresIn`): a token that was signed
-- at a time verifies to its payload at that time and later, up to the end of its life, and from then
-- on to nothing (`ignoreExpiration: false`). Times are whole seconds, as in the claims `iat` and `exp`.
pub record Jwt : Type 0 where
  pub expires_in : ℕ
  pub sign : ℕ → JwtPayload → Text
  pub verify : ℕ → Text → Option JwtPayload
  pub verify-sign :
      (at now : ℕ) (payload : JwtPayload)
      → at ≤ now
      → now < at + expires_in
      → verify now (sign at payload) ≡ some payload
  pub verify-expired :
      (at now : ℕ) (payload : JwtPayload)
      → at + expires_in ≤ now
      → verify now (sign at payload) ≡ none

pub record Credentials : Type 0 where
  pub email : Text
  pub password : Text

-- `UserProfileDto`, and with its token `AuthResponseDto`.
pub record UserProfile : Type 0 where
  pub id : ℕ
  pub email : Option Text
  pub created_at : ℕ
  pub updated_at : ℕ

pub record AuthResponse : Type 0 where
  pub access_token : Text
  pub user : UserProfile

pub record AuthenticatedUser : Type 0 where
  pub user_id : ℕ
  pub email : Text

abbrev pub public_user : User → UserProfile
public_user u = record {
  id = u.id;
  email = u.email;
  created_at = u.created_at;
  updated_at = u.updated_at;
}

abbrev pub normalized_email : Text → Text
normalized_email email = to_lower_case (trim email)

abbrev pub is_email : Text → Option Text → Bool
is_email email none = false
is_email email (some e) = eq_text e email

abbrev pub has_email : Text → User → Bool
has_email email u = is_email email u.email

abbrev pub has_id : ℕ → User → Bool
has_id id u = u.id == id

abbrev pub or_empty : Option Text → Text
or_empty none = []
or_empty (some email) = email

-- The clock in whole seconds.
abbrev pub seconds : Db → ℕ
seconds db = db.now / 1000

unfoldable pub sign_token : Jwt → ℕ → UserProfile → Text
sign_token jwt at user = jwt.sign at (record { sub = user.id; email = or_empty user.email })

unfoldable pub build_auth_response : Jwt → ℕ → UserProfile → AuthResponse
unfolding sign_token
build_auth_response jwt at user = record { access_token = sign_token jwt at user; user = user }

abbrev pub new_user : Text → ℕ → Db → User
new_user email password_hash db = record {
  id = db.next_id;
  privy_user_id = none;
  email = some email;
  password_hash = some password_hash;
  created_at = db.now;
  updated_at = db.now;
}

-- `prisma.user.create`: the unique index on the email refuses a second row.
unfoldable pub create_user : Text → ℕ → Action UserProfile
create_user email password_hash db = elim (find_first (has_email email) db.users) [
  | some u ↦ (err unique_violation, db)
  | none ↦ (
    ok (public_user (new_user email password_hash db)),
    record db { users = new_user email password_hash db ∷ db.users; next_id = suc db.next_id },
  )
]

abbrev pub email_value : Option Text → MetaValue
email_value none = absent
email_value (some email) = words email

abbrev pub raise_if_some : Option User → Action (Unit {0})
raise_if_some none = pure tt
raise_if_some (some u) = raise (http 409)

-- `salt` is the one that bcrypt draws for this call.
unfoldable pub register : Bcrypt → Jwt → ℕ → Credentials → Action AuthResponse
unfolding create_user build_auth_response
register bcrypt jwt salt dto = do
  existing ← gets (λ db. find_first (has_email (normalized_email dto.email)) db.users)
  raise_if_some existing
  user ← create_user (normalized_email dto.email) (bcrypt.hash salt dto.password)
  log_audit user.id AuditAction.user_registered user.id
      ((MetaKey.email, email_value user.email) ∷ [])
  at ← gets seconds
  pure (build_auth_response jwt at user)

-- The user with the email, if a password is stored for it.
abbrev pub with_password : Option User → Option (User × ℕ)
with_password none = none
with_password (some u) = elim u.password_hash [ none ↦ none | some h ↦ some (u, h) ]

unfoldable pub login : Bcrypt → Jwt → Credentials → Action AuthResponse
unfolding build_auth_response
login bcrypt jwt dto = do
  found ← gets (λ db. find_first (has_email (normalized_email dto.email)) db.users)
  (user, password_hash) ← or_raise (with_password found) (http 401)
  raise_if (not (bcrypt.compare dto.password password_hash)) (http 401)
  row ← gets (λ db. find_first (has_id user.id) db.users)
  public ← or_raise row record_missing
  log_audit public.id AuditAction.user_login public.id []
  at ← gets seconds
  pure (build_auth_response jwt at (public_user public))

unfoldable pub get_profile : ℕ → Action UserProfile
get_profile user_id = do
  user ← gets (λ db. find_first (has_id user_id) db.users)
  found ← or_raise user (http 401)
  pure (public_user found)

-- `JwtStrategy.validate`; an id is never empty.
unfoldable pub validate : JwtPayload → Action AuthenticatedUser
validate payload =
    if eq_text payload.email []
    then raise (http 401)
    else pure (record { user_id = payload.sub; email = payload.email })

-- A request with a bearer token: passport verifies the token, and the strategy its payload.
unfoldable pub authenticate : Jwt → Text → Action AuthenticatedUser
unfolding validate
authenticate jwt token = do
  now ← gets seconds
  payload ← or_raise (jwt.verify now token) (http 401)
  validate payload

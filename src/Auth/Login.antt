-- ===== src/Auth/Login.antt =====
-- auth.service.ts: what a registration leaves for the logins after it.
use earn_defi_nestjs_backend.Base.{
  ℕ, suc, ◌+◌, ◌≤◌, ltb, if◌then◌else◌, Bool-cases, ◌≡◌, ◌≢◌, refl, ap, ◌∙◌, none, some, List, [],
  ◌∷◌, Text, arith, inl, inr, Option-cases, ==_refl, eq_text, eq_text_refl, find_first,
}
use earn_defi_nestjs_backend.Schema.Status.{AuditAction}
use earn_defi_nestjs_backend.Schema.Rows.{Db, User, MetaKey, words}
use earn_defi_nestjs_backend.Monad.{Result, ok, err, http, log_audit}
use earn_defi_nestjs_backend.Auth.{
  seconds, JwtPayload, UserProfile, AuthenticatedUser, Bcrypt, Jwt, Credentials, AuthResponse,
  public_user, normalized_email, has_email, new_user, create_user, sign_token, build_auth_response,
  register, login, validate, authenticate,
}

-- The user and the state that a registration with a free email leads to.
abbrev registered : Bcrypt → ℕ → Credentials → Db → User
registered bcrypt salt dto db =
    new_user (normalized_email dto.email) (bcrypt.hash salt dto.password) db

abbrev after_register : Bcrypt → ℕ → Credentials → Db → Db
after_register bcrypt salt dto db = record db {
  users = registered bcrypt salt dto db ∷ db.users;
  next_id = suc db.next_id;
  audit =
      record {
        user_id = db.next_id;
        action = AuditAction.user_registered;
        entity_id = db.next_id;
        metadata = (MetaKey.email, words (normalized_email dto.email)) ∷ [];
      }
      ∷ db.audit;
}

register_free :
    (bcrypt : Bcrypt) (jwt : Jwt) (salt : ℕ) (dto : Credentials) (db : Db)
    → find_first (has_email (normalized_email dto.email)) db.users ≡ none
    → register bcrypt jwt salt dto db ≡ (
      ok (build_auth_response jwt (seconds db) (public_user (registered bcrypt salt dto db))),
      after_register bcrypt salt dto db,
    )
unfolding register create_user log_audit
register_free bcrypt jwt salt dto db free = ground arith

register_taken :
    (bcrypt : Bcrypt) (jwt : Jwt) (salt : ℕ) (dto : Credentials) (db : Db) (u : User)
    → find_first (has_email (normalized_email dto.email)) db.users ≡ some u
    → register bcrypt jwt salt dto db ≡ (err (http 409), db)
unfolding register
register_taken bcrypt jwt salt dto db u taken = ground arith

login_newest :
    (bcrypt : Bcrypt) (jwt : Jwt) (salt : ℕ) (dto again : Credentials) (at_register db : Db)
    → normalized_email again.email ≡ normalized_email dto.email
    → again.password ≡ dto.password
    → db.users ≡ registered bcrypt salt dto at_register ∷ at_register.users
    → (login bcrypt jwt again db).0
      ≡ ok (
          build_auth_response jwt
            (seconds db)
            (public_user (registered bcrypt salt dto at_register)))
unfolding login find_first log_audit
login_newest bcrypt jwt salt dto again at_register db same_email same_password users = ground (
  arith,
  eq_text_refl (normalized_email dto.email),
  bcrypt.compare-hash salt dto.password,
  ==_refl at_register.next_id,
)

-- The answer to a token of the user that was signed at `at`: while it lives, and after that.
abbrev answer_to : Jwt → ℕ → UserProfile → Text → Db → Result AuthenticatedUser × Db
answer_to jwt at user email db =
    if ltb (seconds db) (at + jwt.expires_in)
    then (ok (record { user_id = user.id; email = email }), db)
    else (err (http 401), db)

authenticate-build_auth_response :
    (jwt : Jwt) (at : ℕ) (u : User) (email : Text) (db : Db)
    → u.email ≡ some email
    → email ≢ []
    → at ≤ seconds db
    → authenticate jwt (build_auth_response jwt at (public_user u)).access_token db
      ≡ answer_to jwt at (public_user u) email db
unfolding authenticate validate build_auth_response sign_token eq_text
authenticate-build_auth_response jwt at u [] db has given since = absurd (given refl)
authenticate-build_auth_response jwt at u (c ∷ cs) db has given since =
    let payload : JwtPayload = record { sub = u.id; email = c ∷ cs } in
    elim (Bool-cases (ltb (seconds db) (at + jwt.expires_in))) [
      | inl alive ↦
          rw (has, alive) (rw (jwt.verify-sign at (seconds db) payload since (ground arith)) refl)
      | inr dead ↦
          rw (has, dead) (rw (jwt.verify-expired at (seconds db) payload (ground arith)) refl)
    ]

found_first :
    (u : User) (us : List User) (email : Text)
    → u.email ≡ some email
    → find_first (has_email email) (u ∷ us) ≡ some u
unfolding find_first
found_first u us email has = ground (arith, eq_text_refl email)

-- After a registration that returned, with an email that is not blank: at any time from then on its
-- token authenticates the new user as long as it lives, counted from the second of the registration,
-- and is refused with 401 after that. In any state with the table of users as the registration left
-- it, a login with the same password, and an email that is the same but for case and surrounding
-- blanks, returns the same user, with a token that lives from the second of the login in the same way;
-- and a further registration with that email, whatever its password, is refused with 409 and changes
-- nothing.
pub register_then :
    (bcrypt : Bcrypt) (jwt : Jwt) (salt salt' : ℕ) (dto again : Credentials) (other : Text)
    (db db' later at_use : Db) (r : AuthResponse)
    → register bcrypt jwt salt dto db ≡ (ok r, db')
    → normalized_email dto.email ≢ []
    → normalized_email again.email ≡ normalized_email dto.email
    → again.password ≡ dto.password
    → later.users ≡ db'.users
    → seconds db ≤ seconds at_use
    → seconds later ≤ seconds at_use
    → (authenticate jwt r.access_token at_use ≡ (
        if ltb (seconds at_use) (seconds db + jwt.expires_in)
        then (ok (record { user_id = r.user.id; email = normalized_email dto.email }), at_use)
        else (err (http 401), at_use)))
      × ((s : AuthResponse) × ((login bcrypt jwt again later).0 ≡ ok s)
          × (s.user ≡ r.user)
          × (authenticate jwt s.access_token at_use ≡ (
              if ltb (seconds at_use) (seconds later + jwt.expires_in)
              then (ok (record { user_id = r.user.id; email = normalized_email dto.email }), at_use)
              else (err (http 401), at_use))))
      × (register bcrypt jwt salt' (record again { password = other }) later
          ≡ (err (http 409), later))
unfolding build_auth_response
register_then bcrypt jwt salt salt' dto again other db db' later at_use r done given same password
      kept from_register from_login =
    elim (Option-cases (find_first (has_email (normalized_email dto.email)) db.users)) [
      | inl free ↦
          let made = register_free bcrypt jwt salt dto db free in
          let u = registered bcrypt salt dto db in
          let response : r ≡ build_auth_response jwt (seconds db) (public_user u) =
            cc (made, done) in
          let state : db' ≡ after_register bcrypt salt dto db = cc (made, done) in
          let users : later.users ≡ u ∷ db.users = kept ∙ ap (λ s. s.users) state in
          let email = normalized_email dto.email in
          (
            rw response (
                authenticate-build_auth_response jwt (seconds db) u email at_use refl given
                  from_register),
            (
              build_auth_response jwt (seconds later) (public_user u),
              login_newest bcrypt jwt salt dto again db later same password users,
              rw response refl,
              rw response (
                  authenticate-build_auth_response jwt (seconds later) u email at_use refl given
                    from_login),
            ),
            register_taken bcrypt jwt salt' (record again { password = other }) later u
                (rw (same, users) (found_first u db.users email refl)),
          )
      | inr (u, taken) ↦ absurd (cc (register_taken bcrypt jwt salt dto db u taken, done))
    ]

-- ===== src/Privy/Users.antt =====
-- `ensurePrivyUserId` of privy-wallet.service.ts: the Privy user of a user of the application. It is
-- called outside `execute`, so no error is retried or mapped.
pub mod Again
use earn_defi_nestjs_backend.Base.{
  ℕ, ◌==◌, if◌then◌else◌, Bool, true, false, not, ◌&&◌, Option, none, some, Text, is_some,
  find_first, update_where,
}
use earn_defi_nestjs_backend.Schema.Rows.{Db, User}
use earn_defi_nestjs_backend.Monad.{
  Result, ok, err, Action, pure, lift, gets, or_raise, ◌>>=◌, ◌>>◌, record_missing,
  unique_violation,
}
use earn_defi_nestjs_backend.Auth.{has_id}

-- The calls of the client's `users()`.
pub record UsersApi : Type 0 where
  pub get_by_custom_auth_id : ℕ → Result ℕ
  pub get_by_email_address : Text → Result ℕ
  pub create : ℕ → Option Text → Result ℕ

abbrev pub or_null : Result ℕ → Option ℕ
or_null (ok id) = some id
or_null (err e) = none

abbrev pub find_by_email : UsersApi → Option Text → Option ℕ
find_by_email api none = none
find_by_email api (some email) = or_null (api.get_by_email_address email)

-- Any error of a look-up counts as not found.
unfoldable pub find_existing_privy_user : UsersApi → ℕ → Option Text → Option ℕ
find_existing_privy_user api user_id email = elim (or_null (api.get_by_custom_auth_id user_id)) [
  | some id ↦ some id
  | none ↦ find_by_email api email
]

abbrev pub is_number : ℕ → Option ℕ → Bool
is_number n none = false
is_number n (some m) = m == n

-- The unique index on `privy_user_id`.
abbrev pub is_linked_elsewhere : ℕ → ℕ → User → Bool
is_linked_elsewhere user_id privy_id u = is_number privy_id u.privy_user_id && not (u.id == user_id)

abbrev pub set_privy_user : ℕ → ℕ → User → User
set_privy_user privy_id now u = record u { privy_user_id = some privy_id; updated_at = now }

unfoldable pub link_privy_user : ℕ → ℕ → Action (Unit {0})
link_privy_user user_id privy_id db =
    if is_some (find_first (is_linked_elsewhere user_id privy_id) db.users)
    then (err unique_violation, db)
    else (
      ok tt,
      record db { users = update_where (has_id user_id) (set_privy_user privy_id db.now) db.users },
    )

unfoldable pub privy_user_for : UsersApi → ℕ → Option Text → Action ℕ
unfolding find_existing_privy_user
privy_user_for api user_id email = elim (find_existing_privy_user api user_id email) [
  | some id ↦ pure id
  | none ↦ lift (api.create user_id email)
]

unfoldable pub link_new : UsersApi → ℕ → Option Text → Action ℕ
unfolding privy_user_for link_privy_user
link_new api user_id email = do
  privy_id ← privy_user_for api user_id email
  link_privy_user user_id privy_id
  pure privy_id

unfoldable pub ensure_privy_user_id : UsersApi → ℕ → Action ℕ
unfolding link_new
ensure_privy_user_id api user_id = do
  row ← gets (λ db. find_first (has_id user_id) db.users)
  user ← or_raise row record_missing
  elim user.privy_user_id [ some id ↦ pure id | none ↦ link_new api user_id user.email ]

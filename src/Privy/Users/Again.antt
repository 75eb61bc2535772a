-- ===== src/Privy/Users/Again.antt =====
-- `ensurePrivyUserId`, called again for one user.
use mathlib.Core.Option
use earn_defi_nestjs_backend.Base.{
  ℕ, ◌≡◌, ap, ◌∙◌, Option, some, inl, inr, arith, Bool-cases, Option-cases, Text, is_some,
  find_first, find_first-update_self, update_where,
}
use earn_defi_nestjs_backend.Schema.Rows.{Db}
use earn_defi_nestjs_backend.Monad.{ok}
use earn_defi_nestjs_backend.Auth.{has_id}
use earn_defi_nestjs_backend.Privy.Users.{
  UsersApi, is_linked_elsewhere, set_privy_user, link_privy_user, privy_user_for, link_new,
  ensure_privy_user_id,
}

-- The users with one of them linked.
abbrev with_link : ℕ → ℕ → Db → Db
with_link user_id privy_id db = record db {
  users = update_where (has_id user_id) (set_privy_user privy_id db.now) db.users;
}

link_privy_user_lem :
    (user_id privy_id : ℕ) (db db' : Db)
    → link_privy_user user_id privy_id db ≡ (ok tt, db')
    → db' ≡ with_link user_id privy_id db
unfolding link_privy_user
link_privy_user_lem user_id privy_id db db' h =
    elim (Bool-cases (is_some (find_first (is_linked_elsewhere user_id privy_id) db.users))) [
      | inl taken ↦ ground arith
      | inr free ↦ ground arith
    ]

link_new_lem :
    (api : UsersApi) (user_id privy_id : ℕ) (email : Option Text) (db db' : Db)
    → link_new api user_id email db ≡ (ok privy_id, db')
    → db' ≡ with_link user_id privy_id db
unfolding link_new privy_user_for link_privy_user
link_new_lem api user_id privy_id email db db' h = ground arith

-- Once `ensurePrivyUserId` has returned a Privy user for a user, every later call for that user
-- returns the same one, whatever the client would answer by then, and changes nothing.
pub ensure_privy_user_id-again :
    (api later : UsersApi) (user_id privy_id : ℕ) (db db' : Db)
    → ensure_privy_user_id api user_id db ≡ (ok privy_id, db')
    → ensure_privy_user_id later user_id db' ≡ (ok privy_id, db')
unfolding ensure_privy_user_id
ensure_privy_user_id-again api later user_id privy_id db db' h =
    elim (Option-cases (find_first (has_id user_id) db.users)) [
      | inl missing ↦ ground arith
      | inr (u, found) ↦ elim (Option-cases u.privy_user_id) [
        | inl unlinked ↦
            let made : link_new api user_id u.email db ≡ (ok privy_id, db') = ground arith in
            let state = link_new_lem api user_id privy_id u.email db db' made in
            let row : find_first (has_id user_id) db'.users
                ≡ some (set_privy_user privy_id db.now u) =
              ap (λ s. find_first (has_id user_id) s.users) state
              ∙ find_first-update_self (has_id user_id) (set_privy_user privy_id db.now) db.users
                  (λ a e. e)
              ∙ ap (Option.map (set_privy_user privy_id db.now)) found in
            ground arith
        | inr (id, linked) ↦ ground arith
      ]
    ]

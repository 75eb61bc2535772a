-- ===== src/Books/Plan.antt =====
-- earn/services/earn-withdraw.service.ts: what the checks of a withdrawal establish.
use earn_defi_nestjs_backend.Base.{
  ℕ, ◌==◌, ◌≤ℤ◌, ◌≡◌, refl, Bool, true, false, not, if◌then◌else◌, Option, none, some, inl, inr,
  Option-cases, Bool-cases, ℤ, pos, ltb_ℤ, arith, find_first, find_first-holds, eq_of_==,
  All-find_first,
}
use earn_defi_nestjs_backend.Schema.Status.{is_active}
use earn_defi_nestjs_backend.Schema.Rows.{Db, Position, Vault, Wallet}
use earn_defi_nestjs_backend.Schema.Chain.{ProtocolVault}
use earn_defi_nestjs_backend.Validation.{check_wallet}
use earn_defi_nestjs_backend.Validation.Guards.{check_wallet-owned}
use earn_defi_nestjs_backend.Monad.{
  Result, ok, err, pure, or_raise, raise_if, ◌>>◌, ◌>>=◌, insufficient_position_balance,
  position_not_found, position_not_active, amount_required,
}
use earn_defi_nestjs_backend.Monad.Triple.{
  Post, Keeps, KeepsAnd, pure-KeepsAnd, lift-KeepsAnd, or_raise-Keeps, bind-Triple, then-Triple,
  given-Triple, raise_if-Keeps, raise_if-Plain, Triple-mono,
}
use earn_defi_nestjs_backend.Env.{Env}
use earn_defi_nestjs_backend.Positions.Repository as PositionRows
use earn_defi_nestjs_backend.Positions.Amounts.{IsBacked}
use earn_defi_nestjs_backend.Positions.Service as Positions
use earn_defi_nestjs_backend.Withdraw.{
  WithdrawDto, Plan, owned_position, resolve_withdraw_amount, plan_withdraw,
}
use earn_defi_nestjs_backend.Books.{Books}
use earn_defi_nestjs_backend.Books.Operations.{
  assert_withdraw_allowed-Keeps, check_withdraw_vault-Keeps, check_wallet-Keeps,
}

abbrev pub IsBackedPair : ℕ → Option (Position × Vault) → Type 0
IsBackedPair id none = Unit {0}
IsBackedPair id (some (p, v)) = (p.id ≡ id) × IsBacked p

-- What a withdrawal that passes the checks stands on: the position is the user's and active, the wallet
-- is the one asked for, the user's and on the chain of the vault that the provider has for the
-- position, and neither the position nor what the chain says of the wallet falls short.
pub record IsSound (env : Env) (user_id position_id : ℕ) (dto : WithdrawDto) (plan : Plan)
    : Type 0 where
  pub listed : env.get_vault plan.db_vault.slug (some plan.db_vault.chain_id) ≡ ok plan.vault
  pub asked : plan.wallet.id ≡ dto.wallet_id
  pub holder : plan.wallet.user_id ≡ user_id
  pub same_chain : plan.wallet.chain_id ≡ plan.vault.chain_id
  pub balance :
      (n : ℕ) × (env.share_balance plan.vault.chain_id plan.vault.share_token_address
          plan.wallet.address
        ≡ ok n)
      × (plan.on_chain_shares ≡ pos n)
  pub named : plan.position.id ≡ position_id
  pub owned : plan.position.user_id ≡ user_id
  pub active : is_active plan.position.status ≡ true
  pub even : plan.shares_to_burn ≡ plan.withdraw_amount
  pub full : dto.full_withdraw ≡ true → plan.shares_to_burn ≡ plan.position.shares
  pub within : plan.shares_to_burn ≤ℤ plan.position.shares
  pub covered : plan.shares_to_burn ≤ℤ plan.on_chain_shares

pub find_backed :
    (id : ℕ) → KeepsAnd (Books none) (IsBackedPair id) (Positions.find_by_id_with_vault id)
unfolding Positions.find_by_id_with_vault
find_backed id = record { apply = λ db b. (found_backed db _ refl b, b) }
  where
    found_backed :
        (db : Db) (o : Option Position)
        → find_first (PositionRows.has_id id) db.positions ≡ o
        → Books none db
        → IsBackedPair id (PositionRows.with_vault o db)
    found_backed db none e b = tt
    found_backed db (some p) e b =
        let backed = All-find_first IsBacked (PositionRows.has_id id) db.positions p b.backed e in
        let same =
          eq_of_== p.id id (find_first-holds (PositionRows.has_id id) db.positions {a = p} e) in
        elim (Option-cases (find_first (λ (v : Vault). v.id == p.vault_id) db.vaults)) [
          | inl missing ↦ rw (missing, IsBackedPair, PositionRows.with_vault) tt
          | inr (v, found) ↦ rw (found, IsBackedPair, PositionRows.with_vault) (same, backed)
        ]

owned-IsBacked :
    (user_id id : ℕ) (o : Option (Position × Vault)) (p : Position × Vault)
    → IsBackedPair id o
    → owned_position user_id o ≡ some p
    → (p.0.user_id ≡ user_id) × (p.0.id ≡ id) × IsBacked p.0
owned-IsBacked user_id id none p backed e = ground arith
owned-IsBacked user_id id (some (q, v)) p backed e = ground arith

abbrev IsFull : Position → WithdrawDto → ℤ → Type 0
IsFull position dto n = dto.full_withdraw ≡ true → n ≡ position.current_amount

given_amount-Keeps :
    (P : Db → Type 0) (o : Option ℕ)
    → Keeps P (do amount ← or_raise o amount_required; pure (pos amount))
given_amount-Keeps P none = record { apply = λ db p. p }
given_amount-Keeps P (some n) = record { apply = λ db p. p }

resolve_withdraw_amount-Keeps :
    (position : Position) (dto : WithdrawDto)
    → KeepsAnd (Books none) (IsFull position dto) (resolve_withdraw_amount position dto)
resolve_withdraw_amount-Keeps position dto = elim (Bool-cases dto.full_withdraw) [
  | inl whole ↦ rw whole (
      pure-KeepsAnd (λ n. true ≡ true → n ≡ position.current_amount) position.current_amount
        (λ e. refl))
  | inr part ↦ rw part (
      Triple-mono (given_amount-Keeps (Books none) dto.amount) (λ n db b. (λ e. ground arith, b))
        (λ db b. b))
]

-- The wallet is the one asked for, the user's, and on the chain of the vault.
abbrev IsHeldBy : ℕ → ℕ → ProtocolVault → Wallet → Type 0
IsHeldBy user_id wallet_id vault w =
    (w.id ≡ wallet_id) × (w.user_id ≡ user_id) × (w.chain_id ≡ vault.chain_id)

check_wallet-IsHeldBy :
    (user_id wallet_id : ℕ) (vault : ProtocolVault)
    → KeepsAnd
        (Books none)
        (IsHeldBy user_id wallet_id vault)
        (check_wallet user_id wallet_id vault)
check_wallet-IsHeldBy user_id wallet_id vault = record {
  apply = λ db b.
      held db (check_wallet user_id wallet_id vault db) refl
        ((check_wallet-Keeps none user_id wallet_id vault).apply db b);
}
  where
    held :
        (db : Db) (r : Result Wallet × Db)
        → check_wallet user_id wallet_id vault db ≡ r
        → Post (λ _. Books none) (Books none) r
        → Post (λ w db'. IsHeldBy user_id wallet_id vault w × Books none db') (Books none) r
    held db (ok w, db') e b =
        let (found, id, user, chain, same) = check_wallet-owned user_id wallet_id vault db e in
        ((id, user, chain), b)
    held db (err e', db') e b = b

-- The tests of the amounts, after the reads.
checked_plan :
    (env : Env) (user_id position_id : ℕ) (dto : WithdrawDto) (plan : Plan)
    → (env.get_vault plan.db_vault.slug (some plan.db_vault.chain_id) ≡ ok plan.vault)
    → IsHeldBy user_id dto.wallet_id plan.vault plan.wallet
    → ((n : ℕ) × (env.share_balance plan.vault.chain_id plan.vault.share_token_address
            plan.wallet.address
          ≡ ok n)
        × (plan.on_chain_shares ≡ pos n))
    → plan.position.user_id ≡ user_id
    → plan.position.id ≡ position_id
    → is_active plan.position.status ≡ true
    → plan.shares_to_burn ≡ plan.withdraw_amount
    → (dto.full_withdraw ≡ true → plan.shares_to_burn ≡ plan.position.shares)
    → KeepsAnd (Books none) (IsSound env user_id position_id dto) (
        raise_if (ltb_ℤ plan.position.shares plan.shares_to_burn) insufficient_position_balance
        >> (raise_if (ltb_ℤ plan.on_chain_shares plan.shares_to_burn) insufficient_position_balance
            >> pure plan))
checked_plan env user_id position_id dto plan listed held balance owned named active even full =
    bind-Triple
      (raise_if-Keeps (ltb_ℤ plan.position.shares plan.shares_to_burn)
        insufficient_position_balance)
      λ u. given-Triple λ within.
        bind-Triple
          (raise_if-Keeps (ltb_ℤ plan.on_chain_shares plan.shares_to_burn)
            insufficient_position_balance)
          λ v. given-Triple λ on_chain.
            pure-KeepsAnd (IsSound env user_id position_id dto) plan (record {
              listed = listed;
              asked = held.0;
              holder = held.1;
              same_chain = held.2;
              balance = balance;
              named = named;
              owned = owned;
              active = active;
              even = even;
              full = full;
              within = ground arith;
              covered = ground arith;
            })

not-false : (b : Bool) → not b ≡ false → b ≡ true
not-false true h = refl
not-false false h = ground arith

shares-even :
    (p : Position) (dto : WithdrawDto) (n : ℤ)
    → IsBacked p
    → IsFull p dto n
    → (if dto.full_withdraw then p.shares else n) ≡ n
shares-even p dto n backed full = ground arith

-- Where the books hold, a withdrawal that passes the checks stands on the position that was asked for, which is the user's
-- and ACTIVE; it burns as many shares as it withdraws units, all of them in a full withdrawal, and
-- no more than the position has, or than the chain says that the wallet holds of the shares of the
-- vault that the provider has for the position; the wallet is the one asked for, the user's, and on the
-- vault's chain. Passing or not, the checks keep the books.
pub plan_withdraw-IsSound :
    (env : Env) (user_id position_id : ℕ) (dto : WithdrawDto)
    → KeepsAnd
        (Books none)
        (IsSound env user_id position_id dto)
        (plan_withdraw env user_id position_id dto)
unfolding plan_withdraw
plan_withdraw-IsSound env user_id position_id dto =
    then-Triple (assert_withdraw_allowed-Keeps none env.config user_id) (
      bind-Triple (find_backed position_id) λ found. given-Triple λ backed.
        bind-Triple (or_raise-Keeps (owned_position user_id found) position_not_found) λ pair.
          given-Triple λ owned.
            bind-Triple (raise_if-Keeps (not (is_active pair.0.status)) position_not_active) λ u.
              given-Triple λ active.
                bind-Triple (lift-KeepsAnd (env.get_vault pair.1.slug (some pair.1.chain_id)))
                  λ vault. given-Triple λ listed.
                    then-Triple (check_withdraw_vault-Keeps none env.config vault) (
                      bind-Triple (check_wallet-IsHeldBy user_id dto.wallet_id vault) λ wallet.
                        given-Triple λ held.
                          bind-Triple
                            (lift-KeepsAnd (
                              env.share_balance vault.chain_id vault.share_token_address
                                wallet.address))
                            λ on_chain. given-Triple λ balance.
                              bind-Triple (resolve_withdraw_amount-Keeps pair.0 dto) λ amount.
                                given-Triple λ full.
                                  then-Triple
                                    (raise_if-Plain (ltb_ℤ pair.0.current_amount amount)
                                      insufficient_position_balance)
                                    (checked_plan env user_id position_id dto
                                      (record {
                                        position = pair.0;
                                        db_vault = pair.1;
                                        vault = vault;
                                        wallet = wallet;
                                        withdraw_amount = amount;
                                        shares_to_burn =
                                            if dto.full_withdraw then pair.0.shares else amount;
                                        on_chain_shares = pos on_chain;
                                      })
                                      listed held (on_chain, balance, refl)
                                      (owned-IsBacked user_id position_id found pair backed owned).0
                                      (owned-IsBacked user_id position_id found pair backed owned).1
                                      (not-false (is_active pair.0.status) active)
                                      (shares-even pair.0 dto amount
                                        (owned-IsBacked user_id position_id found pair backed
                                          owned).2
                                        full)
                                      (λ e. rw e refl))))

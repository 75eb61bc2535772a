-- ===== src/Validation/Guards.antt =====
-- earn-transaction-validation.service.ts: which vaults and wallets pass the checks.
use text.Mathlib.Text.{starts_with}
use earn_defi_nestjs_backend.Base.{
  ℕ, ◌==◌, ◌≡◌, Bool, true, false, ◌&&◌, ◌||◌, Option, none, some, inl, inr, Option-cases, ◌↔◌,
  arith, find_first, find_first-holds, ==_refl,
}
use earn_defi_nestjs_backend.Schema.Rows.{Db, Wallet}
use earn_defi_nestjs_backend.Schema.Chain.{Config, ChainDefinition, ProtocolVault}
use earn_defi_nestjs_backend.Monad.{ok}
use earn_defi_nestjs_backend.Validation.{
  get_chain_definition, is_owned_wallet, find_owned_wallet, assert_wallet_belongs_to_user,
  assert_chain_matches_environment, assert_vault_belongs_to_chain, assert_rpc_belongs_to_chain,
  assert_wallet_chain_matches_vault, assert_vault_active, assert_deposit_enabled,
  assert_withdraw_enabled, check_deposit_vault, check_withdraw_vault, check_wallet,
}

-- A chain that the configuration lets transactions onto.
abbrev is_open_chain : Config → Option ChainDefinition → Bool
is_open_chain config none = false
is_open_chain config (some c) =
    (c.is_testnet || config.allow_mainnet_transactions)
    && starts_with c.rpc_url "http"
    && c.is_enabled

abbrev chain_of : Config → ProtocolVault → Option ChainDefinition
chain_of config vault = find_first (λ c. c.chain_id == vault.chain_id) config.chains

-- The checks of a deposit or an approval pass exactly for a vault that is enabled, takes deposits,
-- and stands on a configured and enabled chain with an HTTP endpoint that is a test network unless
-- mainnet is allowed; they change nothing.
pub check_deposit_vault_lem :
    (config : Config) (vault : ProtocolVault) (db : Db)
    → (check_deposit_vault config vault db ≡ (ok tt, db)) ↔ (
        (vault.is_enabled && vault.deposit_enabled && is_open_chain config (chain_of config vault))
        ≡ true)
unfolding check_deposit_vault assert_deposit_enabled assert_vault_active
    assert_chain_matches_environment assert_rpc_belongs_to_chain assert_vault_belongs_to_chain
    get_chain_definition
check_deposit_vault_lem config vault db = ground (arith, ==_refl vault.chain_id)

-- The checks of a withdrawal pass exactly for a vault that is enabled, allows withdrawals, and
-- stands on such a chain; they change nothing.
pub check_withdraw_vault_lem :
    (config : Config) (vault : ProtocolVault) (db : Db)
    → (check_withdraw_vault config vault db ≡ (ok tt, db)) ↔ (
        (vault.is_enabled && vault.withdraw_enabled && is_open_chain config (chain_of config vault))
        ≡ true)
unfolding check_withdraw_vault assert_withdraw_enabled assert_vault_active
    assert_chain_matches_environment assert_rpc_belongs_to_chain assert_vault_belongs_to_chain
    get_chain_definition
check_withdraw_vault_lem config vault db = ground (arith, ==_refl vault.chain_id)

-- A wallet that the check hands out is a row of the table, has the id that was asked for, belongs
-- to the user and is on the vault's chain; the check changes nothing.
pub check_wallet-owned :
    (user_id wallet_id : ℕ) (vault : ProtocolVault) (db : Db) {w : Wallet} {db' : Db}
    → check_wallet user_id wallet_id vault db ≡ (ok w, db')
    → (find_first (is_owned_wallet user_id wallet_id) db.wallets ≡ some w)
      × (w.id ≡ wallet_id)
      × (w.user_id ≡ user_id)
      × (w.chain_id ≡ vault.chain_id)
      × (db' ≡ db)
unfolding check_wallet assert_wallet_belongs_to_user find_owned_wallet
    assert_wallet_chain_matches_vault
check_wallet-owned user_id wallet_id vault db {w} {db'} h =
    elim (Option-cases (find_first (is_owned_wallet user_id wallet_id) db.wallets)) [
      | inl missing ↦ ground arith
      | inr (v, found) ↦
          let fits =
            find_first-holds (is_owned_wallet user_id wallet_id) db.wallets {a = v} found in
          ground (arith, fits)
    ]

-- ===== src/Validation.antt =====
-- earn/services/earn-transaction-validation.service.ts: the checks that every earn mutation makes
-- before it writes.
pub mod Guards
use text.Mathlib.Text.{starts_with}
use earn_defi_nestjs_backend.Base.{
  ℕ, ltb, ◌==◌, if◌then◌else◌, Bool, true, false, not, ◌&&◌, ◌||◌, Option, none, some, String,
  find_first,
}
use earn_defi_nestjs_backend.Schema.Rows.{Db, Wallet}
use earn_defi_nestjs_backend.Schema.Chain.{Config, ChainDefinition, ProtocolVault}
use earn_defi_nestjs_backend.Monad.{
  Error, Result, ok, err, Action, gets, or_raise, raise_if, lift, ◌>>=◌, ◌>>◌, wallet_not_found,
  mainnet_disabled, unsupported_chain, rpc_not_configured, chain_disabled, vault_not_on_chain,
  wallet_chain_mismatch, vault_disabled, vault_deposit_disabled, vault_withdraw_disabled,
}

abbrev pub Check : Type 0
Check = Action (Unit {0})

unfoldable pub get_chain_definition : Config → ℕ → Action ChainDefinition
get_chain_definition config chain_id =
    or_raise (find_first (λ c. c.chain_id == chain_id) config.chains) unsupported_chain

-- `WalletsService.findOwnedWallet`, which `assertWalletBelongsToUser` calls.
abbrev pub is_owned_wallet : ℕ → ℕ → Wallet → Bool
is_owned_wallet user_id wallet_id w = w.id == wallet_id && w.user_id == user_id

unfoldable pub find_owned_wallet : ℕ → ℕ → Action Wallet
find_owned_wallet user_id wallet_id = do
  wallet ← gets (λ db. find_first (is_owned_wallet user_id wallet_id) db.wallets)
  or_raise wallet wallet_not_found

unfoldable pub assert_wallet_belongs_to_user : ℕ → ℕ → Action Wallet
unfolding find_owned_wallet
assert_wallet_belongs_to_user user_id wallet_id = find_owned_wallet user_id wallet_id

unfoldable pub assert_chain_matches_environment : Config → ℕ → Check
unfolding get_chain_definition
assert_chain_matches_environment config chain_id = do
  chain ← get_chain_definition config chain_id
  raise_if (not chain.is_testnet && not config.allow_mainnet_transactions) mainnet_disabled

unfoldable pub assert_vault_belongs_to_chain : ProtocolVault → ℕ → Check
assert_vault_belongs_to_chain vault chain_id =
    raise_if (not (vault.chain_id == chain_id)) vault_not_on_chain

-- An empty URL does not start with `http`, so the first half of the test adds nothing.
unfoldable pub assert_rpc_belongs_to_chain : Config → ℕ → Check
unfolding get_chain_definition
assert_rpc_belongs_to_chain config chain_id = do
  chain ← get_chain_definition config chain_id
  raise_if (not (starts_with chain.rpc_url "http")) rpc_not_configured
  raise_if (not chain.is_enabled) chain_disabled

unfoldable pub assert_wallet_chain_matches_vault : Wallet → ProtocolVault → Check
assert_wallet_chain_matches_vault wallet vault =
    raise_if (not (wallet.chain_id == vault.chain_id)) wallet_chain_mismatch

unfoldable pub assert_vault_active : ProtocolVault → Check
assert_vault_active vault = raise_if (not vault.is_enabled) vault_disabled

unfoldable pub assert_deposit_enabled : ProtocolVault → Check
unfolding assert_vault_active
assert_deposit_enabled vault = do
  assert_vault_active vault
  raise_if (not vault.deposit_enabled) vault_deposit_disabled

unfoldable pub assert_withdraw_enabled : ProtocolVault → Check
unfolding assert_vault_active
assert_withdraw_enabled vault = do
  assert_vault_active vault
  raise_if (not vault.withdraw_enabled) vault_withdraw_disabled

-- The checks of `depositVault` and `approveVault`, in their order.
unfoldable pub check_deposit_vault : Config → ProtocolVault → Check
unfolding assert_deposit_enabled assert_chain_matches_environment assert_rpc_belongs_to_chain
    assert_vault_belongs_to_chain
check_deposit_vault config vault = do
  assert_deposit_enabled vault
  assert_chain_matches_environment config vault.chain_id
  assert_rpc_belongs_to_chain config vault.chain_id
  assert_vault_belongs_to_chain vault vault.chain_id

-- The checks of `withdrawPosition`, in their order.
unfoldable pub check_withdraw_vault : Config → ProtocolVault → Check
unfolding assert_withdraw_enabled assert_chain_matches_environment assert_rpc_belongs_to_chain
    assert_vault_belongs_to_chain
check_withdraw_vault config vault = do
  assert_withdraw_enabled vault
  assert_chain_matches_environment config vault.chain_id
  assert_vault_belongs_to_chain vault vault.chain_id
  assert_rpc_belongs_to_chain config vault.chain_id

-- The owned wallet, on the vault's chain.
unfoldable pub check_wallet : ℕ → ℕ → ProtocolVault → Action Wallet
unfolding assert_wallet_belongs_to_user assert_wallet_chain_matches_vault
check_wallet user_id wallet_id vault = do
  wallet ← assert_wallet_belongs_to_user user_id wallet_id
  assert_wallet_chain_matches_vault wallet vault
  λ db. (ok wallet, db)
